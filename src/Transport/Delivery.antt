-- ===== src/Transport/Delivery.antt =====
-- A message that one side sends is the message that the other side reads.
use mathlib.Core.List.{flatten}
use client_server.Base.{
  Bool-apart, ◌≤◌, ℕ, List, [], ◌∷◌, ◌++◌, none, some, true, false, ltb, Bytes, length, take, ◌≡◌,
  refl, sym, ap, ◌∙◌, arith, append_assoc, take-append_le, Bool-cases, inl, inr, subst, ltb→lt,
  ltb-false,
}
use client_server.Charconv.{Charconv}
use client_server.Header.{Header, serialize, accepted}
use client_server.Header.RoundTrip.{IsSendable}
use client_server.Message.{Processed, process_message}
use client_server.Message.Fields.{refill}
use client_server.Message.RoundTrip.{carry, process_message_three}
use client_server.Transport.Defs.{
  end_of_message, ends_with, Payloads, process_received, complete, refused,
}
use client_server.Transport.Fifo.{
  ReadResult, WriteResult, write_done, send_fifo_message, read_fifo_message, completed,
}
use client_server.Transport.Tcp.{ReadUntil, marked, read_tcp_string, read_tcp_message, tcp_wire}
use client_server.Transport.Framing.{
  IsFramed, IsOpen, IsBlocking, data_of, read_fifo_string-complete, read_fifo_string_block-complete,
  completed_last, whole_part, unmarked-before,
}
use client_server.Transport.Writing.{IsWritable, calls, write_strings-done}

-- What Boost documents of `read_until` on a stream that holds the delimiter: without an error,
-- the buffer is a part in front of the stream, and the delimiter stands in it.
pub record BringsMark (read_until : ReadUntil) (stream : Bytes) : Type 0 where
  pub part : Bytes
  pub more : Bytes
  pub place : ℕ
  pub bytes_read : read_until [] end_of_message ≡ (part, none)
  pub is_part : part ++ more ≡ stream
  pub inside : place ≤ length part
  pub mark_there : ends_with (take place part) end_of_message ≡ true

-- Where only the end of the stream holds the mark, the buffer is the whole stream.
brought_whole :
    (s : Bytes) (read_until : ReadUntil) (b : BringsMark read_until (s ++ end_of_message))
    → IsFramed s
    → b.part ≡ s ++ end_of_message
brought_whole s read_until b framed =
    elim (Bool-cases (ltb b.place (length (s ++ end_of_message)))) [
      | inl lt ↦
          let same : take b.place (s ++ end_of_message) ≡ take b.place b.part =
            ap (λ (t : Bytes). take b.place t) (sym b.is_part)
            ∙ take-append_le b.place b.part b.more b.inside in
          let none_there =
            unmarked-before (length (s ++ end_of_message)) b.place (s ++ end_of_message) framed
              (ltb→lt _ _ lt) in
          absurd (
            Bool-apart (
              sym b.mark_there
              ∙ ap (λ (t : Bytes). ends_with t end_of_message) (sym same)
              ∙ none_there))
      | inr ge ↦
          let size = ltb-false _ _ ge in
          whole_part b.part b.more (s ++ end_of_message) b.is_part (omega (arith, size, b.inside))
    ]

module _ ⦃conv : Charconv⦄ where
  -- A message without its mark.
  abbrev pub unmarked_wire : Header → Payloads → Bytes
  unmarked_wire h p = serialize h ++ (p.payload1 ++ (p.payload2 ++ (p.payload3 ++ p.payload4)))

  abbrev pub carried : Header → Payloads → Header
  carried h p = carry h p.payload1 p.payload2 p.payload3 p.payload4

  tcp_wire_lem : (h : Header) (p : Payloads) → tcp_wire h p ≡ unmarked_wire h p ++ end_of_message
  unfolding tcp_wire
  tcp_wire_lem h p = sym (
      append_assoc (serialize h) (p.payload1 ++ (p.payload2 ++ (p.payload3 ++ p.payload4)))
        end_of_message
      ∙ ap (λ (s : Bytes). serialize h ++ s)
          (append_assoc p.payload1 (p.payload2 ++ (p.payload3 ++ p.payload4)) end_of_message
            ∙ ap (λ (s : Bytes). p.payload1 ++ s)
                (append_assoc p.payload2 (p.payload3 ++ p.payload4) end_of_message
                  ∙ ap (λ (s : Bytes). p.payload2 ++ s)
                      (append_assoc p.payload3 p.payload4 end_of_message))))

  abbrev parts_of : Header → Payloads → List Bytes
  parts_of h p =
      serialize h ∷ p.payload1 ∷ p.payload2 ∷ p.payload3 ∷ p.payload4 ∷ end_of_message ∷ []

  flatten-parts_of : (h : Header) (p : Payloads) → flatten (parts_of h p) ≡ tcp_wire h p
  unfolding flatten tcp_wire
  flatten-parts_of h p = refl

  module _ (h h' : Header) (p : Payloads) (v : IsSendable (carried h p))
      (framed : IsFramed (unmarked_wire (carried h p) p)) (x1 x2 x3 : Bytes) where
    -- What the reader's strings and header become.
    abbrev pub delivered : Processed
    delivered = record {
      outcome = accepted;
      header = carry h p.payload1 p.payload2 p.payload3 p.payload3;
      array = refill x1 p.payload1 ∷ refill x2 p.payload2 ∷ refill x3 p.payload3 ∷ [];
    }

    taken_apart : process_message (unmarked_wire (carried h p) p) h' (x1 ∷ x2 ∷ x3 ∷ []) ≡ delivered
    taken_apart = process_message_three h h' p.payload1 p.payload2 p.payload3 p.payload4 v x1 x2 x3

    -- If the header is sendable, the message holds the mark only at its end, and the pipe takes
    -- something in each of enough calls or asks to wait: sendMessage ends; a reader that does not
    -- block and gets the bytes of the pipe in any cuts, with pauses and empty reads between them,
    -- and one that blocks and gets them in any cuts that are not empty, get the header, with the
    -- size of the third field in place of the fourth's, and the first three strings, an empty one
    -- leaving the old value.
    pub read_fifo_message-send :
        (answers : List WriteResult) (reads block_reads : List ReadResult)
        → IsWritable answers
        → length (unmarked_wire (carried h p) p ++ end_of_message) ≤ calls answers
        → IsOpen reads
        → data_of reads ≡ (send_fifo_message (some answers) (carried h p) p).wire
        → IsBlocking block_reads
        → data_of block_reads ≡ (send_fifo_message (some answers) (carried h p) p).wire
        → ((send_fifo_message (some answers) (carried h p) p).ending ≡ write_done)
          × (read_fifo_message false (some reads) h' (x1 ∷ x2 ∷ x3 ∷ []) ≡ some delivered)
          × (read_fifo_message true (some block_reads) h' (x1 ∷ x2 ∷ x3 ∷ []) ≡ some delivered)
    unfolding send_fifo_message read_fifo_message process_received
    read_fifo_message-send answers reads block_reads w enough o e b f =
        let wire = flatten-parts_of (carried h p) p ∙ tcp_wire_lem (carried h p) p in
        let done = write_strings-done (parts_of (carried h p) p) answers w (rw (wire) enough) in
        let string =
          read_fifo_string-complete (unmarked_wire (carried h p) p) framed reads o
            (e ∙ done.1 ∙ wire) in
        let block_string =
          read_fifo_string_block-complete (unmarked_wire (carried h p) p) framed block_reads b
            (f ∙ done.1 ∙ wire) in
        (
          done.0,
          ap (λ r. process_received r h' (x1 ∷ x2 ∷ x3 ∷ [])) string ∙ ap some taken_apart,
          ap (λ r. process_received r h' (x1 ∷ x2 ∷ x3 ∷ [])) block_string ∙ ap some taken_apart,
        )

    -- If the header is sendable, the message holds the mark only at its end, and read_until
    -- brings a part in front of the stream with the delimiter in it: a reader of the socket gets
    -- the header, with the size of the third field in place of the fourth's, and the first three
    -- strings, an empty one leaving the old value.
    pub read_tcp_message-wire :
        (read_until : ReadUntil)
        → BringsMark read_until (tcp_wire (carried h p) p)
        → read_tcp_message read_until h' (x1 ∷ x2 ∷ x3 ∷ []) ≡ some delivered
    unfolding read_tcp_message read_tcp_string marked completed process_received
    read_tcp_message-wire read_until b =
        let body = unmarked_wire (carried h p) p in
        let wire = tcp_wire_lem (carried h p) p in
        let b' = subst (BringsMark read_until) wire b in
        let read : marked (read_until [] end_of_message) ≡ complete body =
          ap marked b'.bytes_read
          ∙ completed_last body framed b'.part refused (brought_whole body read_until b' framed) in
        ap (λ r. process_received r h' (x1 ∷ x2 ∷ x3 ∷ [])) read ∙ ap some taken_apart
