-- ===== src/Client/Answer.antt =====
-- The reply of a session is printed by the client.
use client_server.Base.{
  ◌<◌, List, [], ◌∷◌, ◌++◌, true, false, some, Bytes, length, ◌≡◌, refl, ap, ◌∙◌, arith,
}
use client_server.Charconv.{Charconv}
use client_server.Header.{Header, Status, serialize}
use client_server.Header.RoundTrip.{IsSendable}
use client_server.Message.Fields.{refill}
use client_server.Crypto.{Encryptor, Draws, SecureOptions, seal_text, open_text, blank_header}
use client_server.Crypto.RoundTrip.{received, both}
use client_server.Crypto.Channel.{IsSecure, open_options, open_text_sealed}
use client_server.Transport.{end_of_message, ReadResult}
use client_server.Transport.Framing.{IsFramed, IsBlocking, data_of}
use client_server.Session.{reply_header}
use client_server.Session.Reply.{read_one}
use client_server.Client.Defs.{
  Client, heartbeat_problem, print_opened, print_reply, caught, print_message, printed_if,
  receive_fifo,
}

refill_more : (x p : Bytes) → 0 < length p → refill x p ≡ p
refill_more x [] h = absurd (omega arith)
refill_more x (c ∷ p) h = ground arith

module _ ⦃conv : Charconv⦄ where
  print_opened_more :
      (c : Client) (h : Header) (text : Bytes)
      → 0 < length text
      → print_opened c (some (h, text))
        ≡ some (true, record c { header = h; response = text; printed = c.printed ++ text })
  unfolding print_opened
  print_opened_more c h [] more = absurd (omega arith)
  print_opened_more c h (b ∷ text) more = refl

  -- If the session sealed a text that is not empty with the client's two encryptors and its
  -- choice of encryption to some bytes, at least one, the inner and the outer header are
  -- sendable, the single encryptor is one of the two, the encryptors give access, their ciphers
  -- and the compressors undo what they do, the nonces have their sizes, no ciphertext of the
  -- text, single, inner or outer, can be taken for a message, the message holds the mark only at
  -- its end, the heartbeat reports no problem, and the pipe brings the message's bytes in any
  -- cuts that are not empty: receive returns true, resets the status, and prints the text behind
  -- what was printed before.
  pub receive_fifo-reply :
      (c : Client) (e f chosen : Encryptor) (o : SecureOptions) (d : Draws) (status : Status)
      (text out : Bytes) (reads : List ReadResult)
      → c.encryptors ≡ both e f
      → o.double_encryption ≡ c.options.double_encryption
      → o.single_encryptor ≡ c.options.single_encryptor
      → heartbeat_problem c.heartbeat ≡ false
      → IsSecure o c.codecs e f chosen d (reply_header o status text) text
      → seal_text o c.codecs (both e f) d (reply_header o status text) text ≡ some out
      → 0 < length text
      → 0 < length out
      → IsSendable (reply_header o status out)
      → IsFramed (serialize (reply_header o status out) ++ out)
      → IsBlocking reads
      → data_of reads ≡ (serialize (reply_header o status out) ++ out) ++ end_of_message
      → receive_fifo (some reads) c
        ≡ some (
          true,
          record c {
            status = Status.none;
            header = received (reply_header o status text);
            response = text;
            printed = c.printed ++ text;
          },
        )
  unfolding receive_fifo printed_if print_message caught print_reply
  receive_fifo-reply c e f chosen o d status text out reads enc double single beat secure sealed
        some_text more sendable framed b brought =
      let c1 : Client = record c { status = Status.none; response = out } in
      let message =
        read_one (reply_header o status out) blank_header c.response out reads
          (refill_more c.response out more) sendable refl framed b brought in
      let opened : open_text c.options c.codecs c.encryptors c.header out
          ≡ some (received (reply_header o status text), text) =
        ap (λ t. open_text c.options c.codecs t c.header out) enc
        ∙ open_options o c.options c.codecs e f c.header out double single
        ∙ open_text_sealed o c.codecs e f chosen d (reply_header o status text) c.header text secure
            out sealed in
      rw (receive_fifo, message, printed_if, print_message, print_reply, beat, opened)
        (ap (λ r. some (caught c1 r)) (print_opened_more c1 _ text some_text))
