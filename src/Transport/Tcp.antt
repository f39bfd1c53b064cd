-- ===== src/Transport/Tcp.antt =====
-- The socket of common/Tcp.h and common/Tcp.cpp. Boost's `read_until` and `write` are parameters.
use client_server.Base.{
  ◌-◌, List, [], ◌++◌, Bool, true, false, Option, none, some, if◌then◌else◌, Bytes, length, take,
}
use client_server.Charconv.{Charconv}
use client_server.Header.{Header, serialize}
use client_server.Message.{Processed}
use client_server.Transport.Defs.{
  end_of_message, ends_with, Received, complete, refused, Payloads, process_received,
}

-- The error codes that the source tells apart.
pub data ErrorCode : Type 0 where
  eof connection_refused connection_reset broken_pipe other_error : ErrorCode

-- `read_until`: the buffer behind the call, from the one before it and the delimiter, and the error.
abbrev pub ReadUntil : Type 0
ReadUntil = Bytes → Bytes → Bytes × Option ErrorCode

unfoldable pub marked : Bytes × Option ErrorCode → Received
marked (payload, some e) = refused
marked (payload, none) =
    if ends_with payload end_of_message
    then complete (take (length payload - length end_of_message) payload)
    else refused

unfoldable pub read_tcp_string : ReadUntil → Bytes → Received
unfolding marked
read_tcp_string read_until payload = marked (read_until payload end_of_message)

unfoldable pub read_tcp_message :
    ⦃conv : Charconv⦄ → ReadUntil → Header → List Bytes → Option Processed
read_tcp_message read_until h array = process_received (read_tcp_string read_until []) h array

-- The buffers that `sendMessage` hands over, in their order.
unfoldable pub tcp_wire : ⦃conv : Charconv⦄ → Header → Payloads → Bytes
tcp_wire h p =
    serialize h ++ (p.payload1 ++ (p.payload2 ++ (p.payload3 ++ (p.payload4 ++ end_of_message))))

-- What `sendMessage` returns, of the error of `write`.
unfoldable pub sent_ok : Option ErrorCode → Bool
sent_ok (some other_error) = false
sent_ok _ = true

unfoldable pub send_tcp_message :
    ⦃conv : Charconv⦄ → (Bytes → Option ErrorCode) → Header → Payloads → Bool
unfolding sent_ok
send_tcp_message write h p = sent_ok (write (tcp_wire h p))

-- `setSocket`: the errors of the address, of `connect` and of `set_option`.
unfoldable pub set_socket : Option ErrorCode → Option ErrorCode → Option ErrorCode → Bool
set_socket none none none = true
set_socket _ _ _ = false

-- `shutdownSocket`: whether the socket is closed, of the error of `shutdown`.
unfoldable pub shutdown_socket : Option ErrorCode → Bool
shutdown_socket none = true
shutdown_socket (some e) = false
