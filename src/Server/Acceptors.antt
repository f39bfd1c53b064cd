-- ===== src/Server/Acceptors.antt =====
-- The acceptors: TcpAcceptor.cpp and FifoAcceptor.cpp. An acceptor takes one client after the other.
use client_server.Base.{Bool, List, [], ◌∷◌, Option, none, some, if◌then◌else◌}
use client_server.Header.{HeaderType}
use client_server.Transport.{ErrorCode}

-- How `readMessage` ends: with a header of a type, with false, or by a throw.
pub data ReadOutcome : Type 0 where
  read_header : HeaderType → ReadOutcome
  read_false : ReadOutcome
  read_thrown : ReadOutcome

-- What an acceptor meets in one client: the error of `async_accept`, how `readMessage` ends, and
-- whether the session's constructor ends without a throw.
pub record Visitor : Type 0 where
  pub error : Option ErrorCode
  pub message : ReadOutcome
  pub constructed : Bool

-- What is done for a client.
pub data Attendance : Type 0 where
  session_created heartbeat_reply no_service : Attendance

-- The end of one round: the acceptor takes the next client, leaves its loop, or has thrown, which
-- its `run` catches behind the loop.
pub data Round : Type 0 where
  next_client : Attendance → Round
  loop_left : Round
  loop_thrown : Round

-- `connectionType`: a message that cannot be read throws.
unfoldable pub connection_type : Visitor → Option HeaderType
connection_type v = elim v.message [
  | read_header type ↦ some type
  | read_false ↦ none
  | read_thrown ↦ none
]

unfoldable pub created : Visitor → Round
created v = if v.constructed then next_client session_created else loop_thrown

-- The switch of `TcpAcceptor::accept`.
unfoldable pub serve_tcp : Visitor → HeaderType → Round
unfolding created
serve_tcp v HeaderType.authenticate = created v
serve_tcp v HeaderType.heartbeat = next_client heartbeat_reply
serve_tcp v type = next_client no_service

unfoldable pub typed_tcp : Visitor → Option HeaderType → Round
unfolding serve_tcp
typed_tcp v none = loop_thrown
typed_tcp v (some type) = serve_tcp v type

-- The handler of `accept`, while the acceptor and the server live and it is not stopped.
unfoldable pub accept_tcp : Visitor → Round
unfolding typed_tcp connection_type
accept_tcp v = elim v.error [ none ↦ typed_tcp v (connection_type v) | some e ↦ loop_left ]

-- `unblockAcceptor`, while the acceptor is not stopped: the type is ERROR where `readMessage`
-- returns false, and `none` is its throw.
unfoldable pub unblock_acceptor : Visitor → Option HeaderType
unblock_acceptor v = elim v.message [
  | read_header type ↦ some type
  | read_false ↦ some HeaderType.error
  | read_thrown ↦ none
]

-- The switch of `FifoAcceptor::run`.
unfoldable pub serve_fifo : Visitor → HeaderType → Round
unfolding created
serve_fifo v HeaderType.authenticate = created v
serve_fifo v type = next_client no_service

unfoldable pub typed_fifo : Visitor → Option HeaderType → Round
unfolding serve_fifo
typed_fifo v none = loop_thrown
typed_fifo v (some type) = serve_fifo v type

unfoldable pub accept_fifo : Visitor → Round
unfolding typed_fifo unblock_acceptor
accept_fifo v = typed_fifo v (unblock_acceptor v)

-- The loop of an acceptor: what is done for the clients that it comes to.
unfoldable pub accept_all : (Visitor → Round) → List Visitor → List Attendance
accept_all accept [] = []
accept_all accept (v ∷ vs) =
    let rest = accept_all accept vs in
    elim (accept v) [ next_client s ↦ s ∷ rest | loop_left ↦ [] | loop_thrown ↦ [] ]
