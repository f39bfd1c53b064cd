-- ===== src/Session/Defs.antt =====
-- What the two kinds of session share: Session.h and Session.cpp.
use mathlib.Core.List.{flatten}
use client_server.Base.{ℕ, Bool, true, false, [], Option, none, some, Bytes, length}
use client_server.Charconv.{Charconv}
use client_server.Header.{Header, HeaderType, Compressors, Diagnostics, Status, to_chars_boost}
use client_server.Crypto.{CryptoTuple, Codecs, SecureOptions, Draws, seal_text, open_text}
use client_server.Task.{Task, update}
use client_server.TaskBuilder.{session_header}
use client_server.Transport.{Payloads}

-- What a session finds in the server: the options, the compression libraries, whether the policy
-- sorts, and the controller behind its weak pointer. A controller takes a task and returns it when
-- its promise has its value.
pub record Service : Type 0 where
  pub options : SecureOptions
  pub codecs : Codecs
  pub sorting : Bool
  pub controller : Option (Task → Task)

pub record Session : Type 0 where
  pub client_id : ℕ
  pub header : Header
  pub request : Bytes
  pub task : Task
  pub status : Status
  pub stopped : Bool
  pub encryptors : CryptoTuple
  pub primary_pub_key_aes : Bytes
  pub secondary_pub_key_aes : Bytes

-- The status of a session that waited for a thread is reset when it runs.
unfoldable pub run_status : Status → Status
run_status Status.max_objects_of_type = Status.none
run_status Status.max_total_objects = Status.none
run_status status = status

abbrev pub reply_header : SecureOptions → Status → Bytes → Header
reply_header o status text = session_header o.compressor Diagnostics.none status (length text)

-- A controller that is alive runs the task.
unfoldable pub run_task : Service → Option (Task → Task) → Header → Bytes → Session → Bool × Session
run_task service none h text s = (false, record s { header = h; request = text })
run_task service (some run) h text s = (
  true,
  record s { header = h; request = text; task = run (update service.sorting h text s.task) },
)

module _ ⦃conv : Charconv⦄ where
  abbrev response_data : Session → Bytes
  response_data s = flatten s.task.response

  -- `none` where the encryption throws.
  unfoldable pub build_reply : Service → Draws → Session → Option (Header × Bytes)
  unfolding flatten
  build_reply service d s =
      let inner = reply_header service.options s.status (response_data s) in
      let sealed =
        seal_text service.options service.codecs s.encryptors d inner (response_data s) in
      elim sealed [ none ↦ none | some out ↦ some (reply_header service.options s.status out, out) ]

  -- `none` where the decryption throws.
  unfoldable pub process_task : Service → Session → Option (Bool × Session)
  unfolding run_task
  process_task service s =
      elim (open_text service.options service.codecs s.encryptors s.header s.request) [
        | none ↦ none
        | some (h, text) ↦ some (run_task service service.controller h text s)
      ]

  -- The message of `sendStatusToClient`.
  unfoldable pub status_message : Session → Header × Payloads
  status_message s =
      let id = to_chars_boost s.client_id false in
      (
        record {
          header_type = HeaderType.dh_handshake;
          field1_size = length id;
          field2_size = length s.primary_pub_key_aes;
          compressor = Compressors.none;
          diagnostics = Diagnostics.none;
          status = s.status;
          field3_size = length s.secondary_pub_key_aes;
          field4_size = 0;
        },
        record {
          payload1 = id;
          payload2 = s.primary_pub_key_aes;
          payload3 = s.secondary_pub_key_aes;
          payload4 = [];
        },
      )
