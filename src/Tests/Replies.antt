-- ===== src/Tests/Replies.antt =====
-- What a client makes of a reply, its loop and its keys, at concrete inputs.
use client_server.Base.{
  ℕ, zero, suc, ◌≤◌, List, [], ◌∷◌, ◌++◌, Option, none, some, true, false, Bytes, codes, length,
  ◌≡◌, ◌≢◌, refl, arith, replicate, Bool, ◌^◌, subst, sym, get_or, ◌==◌, append-nil, if◌then◌else◌,
}
use client_server.Header.{
  Header, Compressors, Diagnostics, Status, serialize, is_diagnostics_enabled,
}
use client_server.Header.RoundTrip.{IsSendable}
use client_server.Crypto.{Crypto, Encryptor, SecureOptions, Draws, seal_text, select}
use client_server.Crypto.RoundTrip.{received}
use client_server.Transport.{end_of_message, ReadResult, transferred, WriteResult, took}
use client_server.Transport.Framing.{IsFramed, IsBlocking, data_of}
use client_server.Session.{reply_header}
use client_server.TaskBuilder.{Subtask}
use client_server.Client.{
  Client, heartbeat_problem, receive_fifo, Gotten, ClientOptions, KeyMaterial, Maker,
}
use client_server.Client.Answer.{receive_fifo-reply}
use client_server.Client.Keys.{keys_of_session, both_keys, session_keys-client_keys}
use client_server.Tests.Data.{conv}
use client_server.Tests.Secret.{toy, toy_codecs, tuple}
use client_server.Tests.Talk.{
  options, draws, inner, reply_text, session_header-IsSendable, toy-IsSecure, seal_text-toy,
  size-reply_text,
}

abbrev reply_bytes : Bytes
reply_bytes =
    69 ∷ 52 ∷ 57 ∷ 0 ∷ 0 ∷ 0 ∷ 0 ∷ 0 ∷ 0 ∷ 0 ∷ 0 ∷ 48 ∷ 0 ∷ 0 ∷ 0 ∷ 0 ∷ 0 ∷ 0 ∷ 0 ∷ 0 ∷ 0 ∷ 66 ∷ 65
    ∷ 65 ∷ 48 ∷ 0 ∷ 0 ∷ 0 ∷ 0 ∷ 0 ∷ 0 ∷ 0 ∷ 0 ∷ 0 ∷ 48 ∷ 0 ∷ 0 ∷ 0 ∷ 0 ∷ 0 ∷ 0 ∷ 0 ∷ 0 ∷ 0 ∷ 0 ∷ 69
    ∷ 50 ∷ 0 ∷ 0 ∷ 0 ∷ 0 ∷ 0 ∷ 0 ∷ 0 ∷ 0 ∷ 0 ∷ 48 ∷ 0 ∷ 0 ∷ 0 ∷ 0 ∷ 0 ∷ 0 ∷ 0 ∷ 0 ∷ 0 ∷ 66 ∷ 65 ∷ 65
    ∷ 48 ∷ 0 ∷ 0 ∷ 0 ∷ 0 ∷ 0 ∷ 0 ∷ 0 ∷ 0 ∷ 0 ∷ 48 ∷ 0 ∷ 0 ∷ 0 ∷ 0 ∷ 0 ∷ 0 ∷ 0 ∷ 0 ∷ 0 ∷ 1 ∷ 111
    ∷ 107 ∷ 9 ∷ []

same_reply_bytes :
    serialize (reply_header options Status.none reply_text) ++ reply_text ≡ reply_bytes
unfolding serialize client_server.Header.header_type_code client_server.Header.to_chars_boost
    client_server.Charconv.Laws.std_charconv client_server.Crypto.compress_data
    client_server.Crypto.codec_of client_server.Header.is_compressed
    client_server.Header.compressors_code client_server.Header.diagnostics_code
    client_server.Header.status_code
same_reply_bytes = refl

reply_literal-IsFramed : IsFramed reply_bytes
unfolding client_server.Transport.Framing.unmarked client_server.Transport.ends_with
    client_server.Base.bytes_eq
reply_literal-IsFramed = refl

framed_reply : IsFramed (serialize (reply_header options Status.none reply_text) ++ reply_text)
framed_reply = subst IsFramed (sym same_reply_bytes) reply_literal-IsFramed

abbrev client : Client
client = record {
  options = options;
  codecs = toy_codecs;
  encryptors = tuple;
  header = inner;
  response = codes "old";
  status = Status.none;
  heartbeat = none;
  printed = [];
}

abbrev reply_reads : List ReadResult
reply_reads =
    transferred
      ((serialize (reply_header options Status.none reply_text) ++ reply_text) ++ end_of_message)
    ∷ []

replies-IsBlocking : IsBlocking reply_reads
unfolding serialize
replies-IsBlocking = tt

reply_read :
    data_of reply_reads
    ≡ (serialize (reply_header options Status.none reply_text) ++ reply_text) ++ end_of_message
reply_read = append-nil _

no_heartbeat : heartbeat_problem none ≡ false
unfolding heartbeat_problem
no_heartbeat = refl

reply_header-IsSendable : IsSendable (reply_header options Status.none reply_text)
reply_header-IsSendable =
    session_header-IsSendable (length reply_text) (omega (arith, size-reply_text))

receive_fifo-reply_example :
    receive_fifo (some reply_reads) client
    ≡ some (
      true,
      record client {
        status = Status.none;
        header = received (reply_header options Status.none (codes "ok"));
        response = codes "ok";
        printed = codes "ok";
      },
    )
receive_fifo-reply_example =
    receive_fifo-reply client toy toy toy options draws Status.none (codes "ok") reply_text
      reply_reads refl refl refl no_heartbeat (toy-IsSecure 2 (codes "ok") (omega arith))
      (seal_text-toy 2 (codes "ok")) (omega arith) (omega arith) reply_header-IsSendable
      framed_reply replies-IsBlocking reply_read

-- The builder gives no subtask, three times.
abbrev no_subtasks : ℕ → Option (Option Gotten × ℕ)
no_subtasks n = some (some (record { size = 0; status = Status.task_done; subtasks = [] }), suc n)

abbrev always_sent : Subtask → ℕ → Option (Bool × ℕ)
always_sent t n = some (true, n)

abbrev always_received : ℕ → Option (Bool × ℕ)
always_received n = some (true, n)

abbrev three_tasks : ClientOptions
three_tasks = record { run_loop = true; max_number_tasks = 3 }

abbrev material : ℕ → KeyMaterial
material n = record { signature_with_key = n ∷ []; pub_key_aes = n ∷ [] }

-- An encryptor that takes the material of its own kind.
abbrev maker : ℕ → Maker
maker n m = if get_or m.pub_key_aes 0 0 == n then some (n ∷ []) else none

session_keys-client_keys_example :
    (Crypto.cryptopp ≢ Crypto.cryptopp
      → keys_of_session
          (material 1)
          (material 2)
          (material 2)
          (maker 1)
          (maker 2)
          (1 ∷ [])
          (2 ∷ [])
          refl
          refl
          Crypto.cryptopp
        ≡ some (both_keys (1 ∷ []) (2 ∷ [])))
    × (Crypto.cryptopp ≡ Crypto.cryptopp
        → keys_of_session
            (material 1)
            (material 2)
            (material 2)
            (maker 1)
            (maker 2)
            (1 ∷ [])
            (2 ∷ [])
            refl
            refl
            Crypto.cryptopp
          ≡ none)
session_keys-client_keys_example =
    session_keys-client_keys (material 1) (material 2) (material 2) (maker 1) (maker 2) (1 ∷ [])
      (2 ∷ []) refl refl refl Crypto.cryptopp
