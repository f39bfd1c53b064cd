-- ===== src/Session/Reply.antt =====
-- The parts of a round: the request that is read, the reply that is made, and its writing.
use mathlib.Core.List.{flatten}
use client_server.Base.{
  ◌≤◌, ◌<◌, List, [], ◌∷◌, ◌++◌, true, some, Bytes, length, ◌≡◌, refl, ap, ◌∙◌, arith,
}
use client_server.Charconv.{Charconv}
use client_server.Header.{Header, accepted, serialize}
use client_server.Header.RoundTrip.{IsSendable}
use client_server.Message.Fields.{refill}
use client_server.Message.RoundTrip.{process_message_one}
use client_server.Crypto.{Draws, seal_text, open_text}
use client_server.Crypto.RoundTrip.{received}
use client_server.Task.{Task, update}
use client_server.Transport.{
  end_of_message, ReadResult, WriteResult, read_fifo_message, send_fifo_message, process_received,
}
use client_server.Transport.Framing.{IsFramed, IsBlocking, data_of, read_fifo_string_block-complete}
use client_server.Transport.Writing.{IsWritable, calls, write_strings-done}
use client_server.Session.Defs.{Service, Session, reply_header, build_reply, run_task, process_task}
use client_server.Session.Fifo.{FifoTurn, sent, send_built}

pub refill_nil : (p : Bytes) → refill [] p ≡ p
refill_nil [] = refl
refill_nil (c ∷ p) = ground arith

module _ ⦃conv : Charconv⦄ where
  -- A message of one string, cut into any reads.
  pub read_one :
      (h h' : Header) (x p : Bytes) (reads : List ReadResult)
      → refill x p ≡ p
      → IsSendable h
      → h.field1_size ≡ length p
      → IsFramed (serialize h ++ p)
      → IsBlocking reads
      → data_of reads ≡ (serialize h ++ p) ++ end_of_message
      → read_fifo_message true (some reads) h' (x ∷ [])
        ≡ some (record { outcome = accepted; header = received h; array = p ∷ [] })
  unfolding read_fifo_message process_received
  read_one h h' x p reads full v size framed b e =
      ap (λ r. process_received r h' (x ∷ []))
        (read_fifo_string_block-complete (serialize h ++ p) framed reads b e)
      ∙ ap some (
          process_message_one h h' p x v size
          ∙ ap (λ (s : Bytes). record { outcome = accepted; header = received h; array = s ∷ [] })
              full)

  pub build_reply_sealed :
      (service : Service) (d : Draws) (s : Session) (out : Bytes)
      → seal_text service.options service.codecs s.encryptors d
          (reply_header service.options s.status (flatten s.task.response))
          (flatten s.task.response)
        ≡ some out
      → build_reply service d s ≡ some (reply_header service.options s.status out, out)
  unfolding build_reply
  build_reply_sealed service d s out e = rw (build_reply, e) refl

  pub process_task_opened :
      (service : Service) (s : Session) (run : Task → Task) (h : Header) (text : Bytes)
      → service.controller ≡ some run
      → open_text service.options service.codecs s.encryptors s.header s.request ≡ some (h, text)
      → process_task service s
        ≡ some (
          true,
          record s {
            header = h;
            request = text;
            task = run (update service.sorting h text s.task);
          },
        )
  unfolding process_task run_task
  process_task_opened service s run h text c e =
      rw (process_task, e) (ap (λ o. some (run_task service o h text s)) c)

  -- What stands on the pipe behind a reply.
  abbrev pub reply_wire_of : Header → Bytes → Bytes
  reply_wire_of h out = serialize h ++ (out ++ end_of_message)

  one_wire :
      (h : Header) (out : Bytes)
      → flatten (serialize h ∷ out ∷ [] ∷ [] ∷ [] ∷ end_of_message ∷ []) ≡ reply_wire_of h out
  unfolding flatten
  one_wire h out = refl

  pub send_built_done :
      (turn : FifoTurn) (s : Session) (h : Header) (out : Bytes) (answers : List WriteResult)
      → turn.writes ≡ some answers
      → 0 < length out
      → IsWritable answers
      → length (reply_wire_of h out) ≤ calls answers
      → send_built turn s (some (h, out))
        ≡ some (record { goes_on = true; session = s; wire = reply_wire_of h out })
  unfolding send_built sent send_fifo_message
  send_built_done turn s h [] answers e more w enough = absurd (omega arith)
  send_built_done turn s h (c ∷ out) answers e more w enough =
      let wire = one_wire h (c ∷ out) in
      let done =
        write_strings-done (serialize h ∷ (c ∷ out) ∷ [] ∷ [] ∷ [] ∷ end_of_message ∷ []) answers w
          (rw (wire) enough) in
      rw (send_built, e, sent, send_fifo_message, done.0, done.1)
        (ap (λ (t : Bytes). some (record { goes_on = true; session = s; wire = t })) wire)
