-- ===== src/Client/Defs.antt =====
-- What the client does with a message: client_src/Client.cpp, client_src/FifoClient.cpp and
-- client_src/TcpClient.cpp.
use mathlib.Core.Option
use client_server.Base.{
  Bool, true, false, List, [], ◌∷◌, ◌++◌, Option, none, some, if◌then◌else◌, Bytes, get_or,
}
use client_server.Charconv.{Charconv}
use client_server.Header.{Header, Status, accepted, rejected, threw}
use client_server.Message.{Processed}
use client_server.Crypto.{CryptoTuple, Codecs, SecureOptions, open_text, blank_header}
use client_server.Transport.{ReadResult, ErrorCode, ReadUntil, read_fifo_message, read_tcp_message}

-- `displayStatus`: whether the status is a problem.
unfoldable pub display_status : Status → Bool
display_status Status.none = false
display_status Status.max_total_objects = false
display_status Status.max_objects_of_type = false
display_status Status.stopped = false
display_status Status.session_stopped = false
display_status status = true

-- The members of a client that its replies go through. `heartbeat` is the status of the heartbeat,
-- if it is alive; `printed` is what was written to the stream.
pub record Client : Type 0 where
  pub options : SecureOptions
  pub codecs : Codecs
  pub encryptors : CryptoTuple
  pub header : Header
  pub response : Bytes
  pub status : Status
  pub heartbeat : Option Status
  pub printed : Bytes

unfoldable pub heartbeat_problem : Option Status → Bool
unfolding display_status
heartbeat_problem none = false
heartbeat_problem (some status) = display_status status

-- The reply is written to the stream unless it is empty.
unfoldable pub print_opened : Client → Option (Header × Bytes) → Option (Bool × Client)
print_opened c none = none
print_opened c (some (h, [])) = some (false, record c { header = h; response = [] })
print_opened c (some (h, b ∷ text)) =
    some (true, record c { header = h; response = b ∷ text; printed = c.printed ++ (b ∷ text) })

module _ ⦃conv : Charconv⦄ where
  -- `none` where the decryption throws.
  unfoldable pub print_reply : Client → Option (Bool × Client)
  unfolding print_opened heartbeat_problem
  print_reply c =
      let opened = open_text c.options c.codecs c.encryptors c.header c.response in
      if heartbeat_problem c.heartbeat then some (false, c) else print_opened c opened

  -- A throw is caught.
  unfoldable pub caught : Client → Option (Bool × Client) → Bool × Client
  caught c none = (false, c)
  caught c (some r) = r

  unfoldable pub print_message : Client → Processed → Bool × Client
  unfolding print_reply caught
  print_message c p =
      let c' : Client = record c { response = get_or p.array 0 [] } in
      elim p.outcome [
        | accepted ↦ caught c' (print_reply c')
        | rejected ↦ (false, c')
        | threw ↦ (false, c')
      ]

  unfoldable pub printed_if : Client → Option Processed → Option (Bool × Client)
  unfolding print_message
  printed_if c none = none
  printed_if c (some p) = some (print_message c p)

  -- `receive` of the client on a pipe; `none` where it has not returned.
  unfoldable pub receive_fifo : Option (List ReadResult) → Client → Option (Bool × Client)
  unfolding printed_if
  receive_fifo reads c =
      let c' : Client = record c { status = Status.none } in
      printed_if c' (read_fifo_message true reads blank_header (c.response ∷ []))

  -- The status is reset behind a message that was read.
  unfoldable pub print_tcp : Client → Processed → Bool × Client
  unfolding print_message
  print_tcp c p = elim p.outcome [
    | accepted ↦ print_message (record c { status = Status.none }) p
    | rejected ↦ print_message c p
    | threw ↦ print_message c p
  ]

  unfoldable pub receive_tcp : Option ErrorCode → ReadUntil → Client → Option (Bool × Client)
  unfolding print_tcp
  receive_tcp (some e) read_until c = some (false, c)
  receive_tcp none read_until c =
      Option.map (print_tcp c) (read_tcp_message read_until blank_header (c.response ∷ []))

-- A try of `FifoClient::send`: whether the client was closed before it, which removes the pipe,
-- what `sendMessage` returned, and whether the pipe exists behind it.
pub record SendTry : Type 0 where
  pub closed : Bool
  pub sent_message : Bool
  pub still_exists : Bool

-- The loop of `FifoClient::send`; `none` where it has not ended.
unfoldable pub send_fifo : List SendTry → Client → Option (Bool × Client)
send_fifo [] c = none
send_fifo (t ∷ tries) c =
    let c' : Client = if t.closed then record c { status = Status.stopped } else c in
    let again = send_fifo tries c' in
    if t.sent_message
    then some (true, c')
    else (if t.still_exists
        then again
        else some (false, record c' { status = Status.session_stopped }))

-- `TcpClient::send`, of the error of the wait and of whether `sendMessage` throws. What
-- `sendMessage` returns is not looked at.
unfoldable pub send_tcp : Option ErrorCode → Option Bool → Bool
send_tcp (some e) message_sent = false
send_tcp none none = false
send_tcp none (some result) = true
