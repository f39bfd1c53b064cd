-- ===== src/Tests/Talk.antt =====
-- A round of a session and its client at concrete inputs.
use mathlib.Core.List.{flatten}
use client_server.Base.{
  ℕ, zero, suc, ◌≤◌, ◌<◌, List, [], ◌∷◌, ◌++◌, Option, none, some, true, false, Bytes, codes,
  length, ◌≡◌, ◌≢◌, refl, arith, replicate, Bool, ◌^◌, subst, sym, get_or, ◌==◌, append-nil,
  if◌then◌else◌,
}
use client_server.Header.{
  Header, Compressors, Diagnostics, Status, serialize, is_diagnostics_enabled,
}
use client_server.Header.RoundTrip.{IsSendable}
use client_server.Crypto.{Crypto, Encryptor, SecureOptions, Draws, seal_text, select}
use client_server.Crypto.RoundTrip.{message}
use client_server.Crypto.Channel.{IsWorking, IsSecure}
use client_server.Task.{Task, empty_task}
use client_server.TaskBuilder.{session_header}
use client_server.Transport.{end_of_message, ReadResult, transferred, WriteResult, took}
use client_server.Transport.Framing.{IsFramed, IsBlocking, data_of}
use client_server.Transport.Writing.{IsWritable, calls}
use client_server.Session.{Service, Session, FifoTurn, FifoRound, reply_header, receive_request}
use client_server.Session.Reply.{reply_wire_of}
use client_server.Session.Turn.{ClientRequest, IsProper, answered, receive_request-answers}
use client_server.Tests.Data.{conv}
use client_server.Tests.Secret.{
  toy, toy_codecs, toy_codecs-AreCodecs, toy-IsCipher, toy_hides, tuple,
}

abbrev pub options : SecureOptions
options = record {
  double_encryption = false;
  single_encryptor = Crypto.cryptopp;
  compressor = Compressors.lz4;
  do_encrypt = true;
}

abbrev pub draws : Draws
draws = record { previous = []; nonce = 9 ∷ []; nonce' = 8 ∷ [] }

-- The controller of the test answers every task with one text.
abbrev answer_ok : Task → Task
answer_ok t = record t { response = codes "ok" ∷ [] }

abbrev service : Service
service = record {
  options = options;
  codecs = toy_codecs;
  sorting = true;
  controller = some answer_ok;
}

abbrev session : Session
session = record {
  client_id = 1;
  header = session_header Compressors.none Diagnostics.none Status.none 0;
  request = [];
  task = empty_task;
  status = Status.max_total_objects;
  stopped = false;
  encryptors = tuple;
  primary_pub_key_aes = [];
  secondary_pub_key_aes = [];
}

abbrev pub inner : Header
inner = session_header Compressors.lz4 Diagnostics.none Status.none 0

toy-IsWorking : (nonce : ℕ) → IsWorking toy (nonce ∷ [])
toy-IsWorking nonce = record { cipher = toy-IsCipher; access = refl; nonce_fits = refl }

pub session_header-IsSendable :
    (n : ℕ)
    → n < 10 ^ 10
    → IsSendable (session_header Compressors.lz4 Diagnostics.none Status.none n)
session_header-IsSendable n h = record {
  header_type_valid = (λ e. cc, λ e. cc);
  compressor_valid = (λ e. cc, λ e. cc);
  diagnostics_valid = (λ e. cc, λ e. cc);
  status_valid = (λ e. cc, λ e. cc);
  field1_fits = h;
  field2_fits = omega arith;
  field3_fits = omega arith;
  field4_fits = omega arith;
}

pub toy-IsSecure :
    (n : ℕ) (text : Bytes)
    → n < 10 ^ 10
    → IsSecure options toy_codecs toy toy toy draws
        (session_header Compressors.lz4 Diagnostics.none Status.none n)
        text
unfolding select
toy-IsSecure n text h = record {
  sendable = session_header-IsSendable n h;
  codecs_undo = toy_codecs-AreCodecs;
  inner_works = toy-IsWorking 9;
  outer_works = toy-IsWorking 8;
  is_chosen = refl;
  chosen_works = toy-IsWorking 9;
  hidden_single = toy_hides _;
  hidden_inner = toy_hides _;
  hidden_outer = toy_hides _;
}

-- A text as the client or the session seals it.
abbrev pub sealed_by_toy : ℕ → Bytes → Bytes
sealed_by_toy n text =
    0
    ∷ (message toy_codecs (session_header Compressors.lz4 Diagnostics.none Status.none n) text
        ++ 9 ∷ [])

pub seal_text-toy :
    (n : ℕ) (text : Bytes)
    → seal_text options toy_codecs tuple draws
        (session_header Compressors.lz4 Diagnostics.none Status.none n)
        text
      ≡ some (sealed_by_toy n text)
unfolding seal_text client_server.Crypto.compress_single_encrypt client_server.Crypto.single_encrypt
    select client_server.Crypto.encrypt serialize client_server.Crypto.input_of
seal_text-toy n text = refl

abbrev sent_text : Bytes
sent_text = sealed_by_toy 0 (codes "[0]a")

abbrev sent_request : ClientRequest
sent_request = record {
  options = options;
  draws = draws;
  inner = inner;
  text = codes "[0]a";
  sealed = sent_text;
  outer = session_header Compressors.lz4 Diagnostics.none Status.none 51;
}

abbrev request_bytes : Bytes
request_bytes =
    69 ∷ 53 ∷ 49 ∷ 0 ∷ 0 ∷ 0 ∷ 0 ∷ 0 ∷ 0 ∷ 0 ∷ 0 ∷ 48 ∷ 0 ∷ 0 ∷ 0 ∷ 0 ∷ 0 ∷ 0 ∷ 0 ∷ 0 ∷ 0 ∷ 66 ∷ 65
    ∷ 65 ∷ 48 ∷ 0 ∷ 0 ∷ 0 ∷ 0 ∷ 0 ∷ 0 ∷ 0 ∷ 0 ∷ 0 ∷ 48 ∷ 0 ∷ 0 ∷ 0 ∷ 0 ∷ 0 ∷ 0 ∷ 0 ∷ 0 ∷ 0 ∷ 0 ∷ 69
    ∷ 48 ∷ 0 ∷ 0 ∷ 0 ∷ 0 ∷ 0 ∷ 0 ∷ 0 ∷ 0 ∷ 0 ∷ 48 ∷ 0 ∷ 0 ∷ 0 ∷ 0 ∷ 0 ∷ 0 ∷ 0 ∷ 0 ∷ 0 ∷ 66 ∷ 65 ∷ 65
    ∷ 48 ∷ 0 ∷ 0 ∷ 0 ∷ 0 ∷ 0 ∷ 0 ∷ 0 ∷ 0 ∷ 0 ∷ 48 ∷ 0 ∷ 0 ∷ 0 ∷ 0 ∷ 0 ∷ 0 ∷ 0 ∷ 0 ∷ 0 ∷ 1 ∷ 91 ∷ 48
    ∷ 93 ∷ 97 ∷ 9 ∷ []

same_request_bytes : serialize sent_request.outer ++ sent_text ≡ request_bytes
unfolding serialize client_server.Header.header_type_code client_server.Header.to_chars_boost
    client_server.Charconv.Laws.std_charconv client_server.Header.compressors_code
    client_server.Header.diagnostics_code client_server.Header.status_code
    client_server.Crypto.compress_data client_server.Crypto.codec_of
    client_server.Header.is_compressed
same_request_bytes = refl

literal-IsFramed : IsFramed request_bytes
unfolding client_server.Transport.Framing.unmarked client_server.Transport.ends_with
    client_server.Base.bytes_eq
literal-IsFramed = refl

framed_text : IsFramed (serialize sent_request.outer ++ sent_text)
framed_text = subst IsFramed (sym same_request_bytes) literal-IsFramed

size-sent_text : 51 ≡ length sent_text
unfolding serialize client_server.Header.to_chars_boost client_server.Charconv.Laws.std_charconv
    client_server.Crypto.compress_data client_server.Crypto.codec_of
    client_server.Crypto.codec_named client_server.Header.is_compressed
size-sent_text = refl

sent_request-IsProper : IsProper service session toy toy toy answer_ok sent_request
sent_request-IsProper = record {
  same_double = refl;
  same_single = refl;
  secure = toy-IsSecure 0 (codes "[0]a") (omega arith);
  is_sealed = seal_text-toy 0 (codes "[0]a");
  sendable = session_header-IsSendable 51 (omega arith);
  size_told = size-sent_text;
  framed = framed_text;
}

abbrev pub reply_text : Bytes
reply_text = sealed_by_toy 2 (codes "ok")

pub size-reply_text : 49 ≡ length reply_text
unfolding serialize client_server.Header.to_chars_boost client_server.Charconv.Laws.std_charconv
    client_server.Crypto.compress_data client_server.Crypto.codec_of
    client_server.Crypto.codec_named client_server.Header.is_compressed
size-reply_text = refl

abbrev request_reads : List ReadResult
request_reads = transferred ((serialize sent_request.outer ++ sent_text) ++ end_of_message) ∷ []

reads-IsBlocking : IsBlocking request_reads
unfolding serialize
reads-IsBlocking = tt

abbrev turn : FifoTurn
turn = record {
  exists_before = true;
  reads = some request_reads;
  exists_after = true;
  writes = some (replicate 130 (took 1));
  draws = draws;
}

replicate-IsWritable : (n : ℕ) → IsWritable (replicate n (took 1))
replicate-IsWritable zero = tt
replicate-IsWritable (suc n) = (omega arith, replicate-IsWritable n)

length-reply : length (reply_wire_of (reply_header options Status.none reply_text) reply_text) ≡ 125
unfolding serialize client_server.Header.to_chars_boost client_server.Charconv.Laws.std_charconv
    client_server.Crypto.compress_data client_server.Crypto.codec_of
    client_server.Crypto.codec_named client_server.Header.is_compressed
length-reply = refl

size-reply :
    length (reply_wire_of (reply_header options Status.none reply_text) reply_text)
    ≤ calls (replicate 130 (took 1))
size-reply = omega (arith, length-reply)

data_read : data_of request_reads ≡ (serialize sent_request.outer ++ sent_text) ++ end_of_message
data_read = append-nil _

receive_request-answers_example :
    receive_request service turn session
    ≡ some (record {
      goes_on = true;
      session = answered service session toy toy toy answer_ok sent_request;
      wire = reply_wire_of (reply_header options Status.none reply_text) reply_text;
    })
unfolding flatten client_server.Session.run_status
receive_request-answers_example =
    receive_request-answers service session toy toy toy answer_ok sent_request turn request_reads
      (replicate 130 (took 1)) reply_text refl refl sent_request-IsProper refl refl refl
      reads-IsBlocking data_read refl (replicate-IsWritable 130) (seal_text-toy 2 (codes "ok"))
      (omega arith) size-reply
