-- ===== src/Session/Tcp.antt =====
-- The session on a socket: TcpSession.cpp. Its handlers run one after the other in the session's
-- context; what a handler posts comes next.
use client_server.Base.{
  ℕ, ◌-◌, Bool, true, false, [], ◌∷◌, ◌++◌, Option, none, some, if◌then◌else◌, Bytes, length, take,
  drop,
}
use client_server.Charconv.{Charconv}
use client_server.Header.{
  Header, Status, Outcome, accepted, rejected, threw, header_size, serialize, deserialize,
}
use client_server.Crypto.{Draws}
use client_server.Session.Defs.{Service, Session, run_status, build_reply, process_task}
use client_server.Transport.{ErrorCode, end_of_message, ends_with}

-- What a handler posts: the cancelling of the timer, the reply, or the next request; or it throws,
-- which ends `run`.
pub data Posted : Type 0 where
  cancel_timer post_reply post_request post_nothing thrown : Posted

-- The end of the message is cut off.
unfoldable pub cut_mark : ℕ → Bytes → Bytes
cut_mark transferred request =
    if ends_with request end_of_message
    then take (transferred - length end_of_message) request
    else request

module _ ⦃conv : Charconv⦄ where
  unfoldable pub after_task : Session → Option (Bool × Session) → Posted × Session
  after_task s none = (thrown, s)
  after_task s (some (true, s')) = (post_reply, s')
  after_task s (some (false, s')) = (cancel_timer, s')

  -- The outer header is read and cut off.
  unfoldable pub with_outer_header : Service → Session → Bytes → Outcome × Header → Posted × Session
  unfolding after_task
  with_outer_header service s text (accepted, h) =
      let s' : Session = record s { header = h; request = drop header_size text } in
      after_task s' (process_task service s')
  with_outer_header service s text (rejected, h) =
      let s' : Session = record s { header = h; request = text } in
      after_task s' (process_task service s')
  with_outer_header service s text (threw, h) = (thrown, record s { header = h; request = text })

  -- The handler of `readRequest`, of the error, of the number of bytes up to the mark, and of the
  -- buffer. The session is alive.
  unfoldable pub on_read : Service → Option ErrorCode → ℕ → Bytes → Session → Posted × Session
  unfolding with_outer_header cut_mark
  on_read service (some e) transferred buffer s =
      (cancel_timer, record s { request = cut_mark transferred buffer })
  on_read service none transferred buffer s =
      let text = cut_mark transferred buffer in
      with_outer_header service s text (deserialize text s.header)

  -- `sendReply`: the bytes that are written, `none` where nothing is.
  unfoldable pub reply_wire : Option (Header × Bytes) → Option Bytes
  reply_wire none = none
  reply_wire (some (h, [])) = none
  reply_wire (some (h, c ∷ text)) = some (serialize h ++ ((c ∷ text) ++ end_of_message))

  unfoldable pub send_reply : Service → Draws → Session → Option Bytes
  unfolding reply_wire
  send_reply service d s = reply_wire (build_reply service d s)

-- The handler of `write`, of the error and of the number of timers that were cancelled.
unfoldable pub on_written : Option ErrorCode → Bool → Session → Posted × Session
on_written (some e) timer_cancelled s = (cancel_timer, s)
on_written none timer_cancelled s =
    if timer_cancelled
    then (post_request, record s { request = [] })
    else (post_nothing, record s { status = Status.tcp_timeout })

-- `run` before the context runs, and `stop`.
abbrev pub begin_run : Session → Session
begin_run s = record s { status = run_status s.status }

abbrev pub stop_session : Session → Session
stop_session s = record s { stopped = true }
