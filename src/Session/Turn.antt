-- ===== src/Session/Turn.antt =====
-- A whole round of a session on a pipe: the request of a client is answered.
use mathlib.Core.List.{flatten}
use client_server.Base.{◌≤◌, ◌<◌, List, [], ◌++◌, true, some, Bytes, length, ◌≡◌, ap, ◌∙◌}
use client_server.Charconv.{Charconv}
use client_server.Header.{Header, serialize}
use client_server.Header.RoundTrip.{IsSendable}
use client_server.Crypto.{Encryptor, Draws, SecureOptions, seal_text, open_text, blank_header}
use client_server.Crypto.RoundTrip.{received, both}
use client_server.Crypto.Channel.{IsSecure, open_options, open_text_sealed}
use client_server.Task.{Task, update}
use client_server.Transport.{end_of_message, ReadResult, WriteResult}
use client_server.Transport.Framing.{IsFramed, IsBlocking, data_of}
use client_server.Transport.Writing.{IsWritable, calls}
use client_server.Session.Defs.{Service, Session, run_status, reply_header}
use client_server.Session.Fifo.{
  FifoTurn, with_request, send_response, respond_if, requested, receive_request,
}
use client_server.Session.Reply.{
  refill_nil, read_one, build_reply_sealed, process_task_opened, reply_wire_of, send_built_done,
}

-- What the client sends: a text with its inner header, sealed, behind the outer header.
pub record ClientRequest : Type 0 where
  pub options : SecureOptions
  pub draws : Draws
  pub inner : Header
  pub text : Bytes
  pub sealed : Bytes
  pub outer : Header

module _ ⦃conv : Charconv⦄ (service : Service) (s : Session) (e f chosen : Encryptor)
    (run : Task → Task) where
  -- The two sides have the same options but for the compressor and whether the client encrypts, the
  -- text is sealed, and its message can be sent and holds the mark only at its end.
  pub record IsProper (c : ClientRequest) : Type 0 where
    pub same_double : c.options.double_encryption ≡ service.options.double_encryption
    pub same_single : c.options.single_encryptor ≡ service.options.single_encryptor
    pub secure : IsSecure c.options service.codecs e f chosen c.draws c.inner c.text
    pub is_sealed :
        seal_text c.options service.codecs (both e f) c.draws c.inner c.text ≡ some c.sealed
    pub sendable : IsSendable c.outer
    pub size_told : c.outer.field1_size ≡ length c.sealed
    pub framed : IsFramed (serialize c.outer ++ c.sealed)

  -- The session behind the round.
  abbrev pub answered : ClientRequest → Session
  answered c = record s {
    header = received c.inner;
    request = c.text;
    status = run_status s.status;
    task = run (update service.sorting (received c.inner) c.text s.task);
  }

  abbrev pub answer_data : ClientRequest → Bytes
  answer_data c = flatten (answered c).task.response

  -- If a client sealed a text with the same two encryptors and the same choice of encryption, its
  -- inner and outer headers are sendable, the outer one telling the size, the single encryptor is
  -- one of the two, the encryptors give access, their ciphers and the compressors undo what they
  -- do, the nonces have their sizes, no ciphertext of the text, single, inner or outer, can be
  -- taken for a message, the client's message holds the mark only at its end, the controller
  -- lives, the pipe exists, brings the message's bytes in any cuts that are not empty and takes
  -- something of the reply in each of enough calls, and the reply is sealed to some bytes, at
  -- least one: the round ends with true, the task is the one that the controller made of an
  -- update with the client's text, and on the pipe stand the reply's header, the sealed reply and
  -- the mark.
  pub receive_request-answers :
      (c : ClientRequest) (turn : FifoTurn) (reads : List ReadResult) (answers : List WriteResult)
      (out : Bytes)
      → service.controller ≡ some run
      → s.encryptors ≡ both e f
      → IsProper c
      → turn.exists_before ≡ true
      → turn.exists_after ≡ true
      → turn.reads ≡ some reads
      → IsBlocking reads
      → data_of reads ≡ (serialize c.outer ++ c.sealed) ++ end_of_message
      → turn.writes ≡ some answers
      → IsWritable answers
      → seal_text service.options service.codecs
          (both e f)
          turn.draws
          (reply_header service.options (run_status s.status) (answer_data c))
          (answer_data c)
        ≡ some out
      → 0 < length out
      → length (reply_wire_of (reply_header service.options (run_status s.status) out) out)
        ≤ calls answers
      → receive_request service turn s
        ≡ some (record {
          goes_on = true;
          session = answered c;
          wire = reply_wire_of (reply_header service.options (run_status s.status) out) out;
        })
  unfolding receive_request requested respond_if send_response
  receive_request-answers c turn reads answers out alive enc proper before after opened b brought
        writable w sealed more enough =
      let s1 = with_request c.sealed s in
      let request =
        read_one c.outer blank_header [] c.sealed reads (refill_nil c.sealed) proper.sendable
          proper.size_told proper.framed b brought in
      let text : open_text service.options service.codecs s.encryptors s1.header s1.request
          ≡ some (received c.inner, c.text) =
        ap (λ t. open_text service.options service.codecs t s1.header s1.request) enc
        ∙ open_options c.options service.options service.codecs e f s1.header s1.request
            proper.same_double proper.same_single
        ∙ open_text_sealed c.options service.codecs e f chosen c.draws c.inner s1.header c.text
            proper.secure c.sealed proper.is_sealed in
      let task = process_task_opened service s1 run (received c.inner) c.text alive text in
      let built = build_reply_sealed service turn.draws (answered c) out (
        ap
          (λ t.
            seal_text service.options service.codecs t turn.draws
              (reply_header service.options (run_status s.status) (answer_data c)) (answer_data c))
          enc
        ∙ sealed) in
      let done = send_built_done turn (answered c) _ out answers writable more w enough in
      rw
        (
          receive_request, before, opened, request, requested, task, respond_if, send_response,
          after, built,
        )
        done
