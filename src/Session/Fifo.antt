-- ===== src/Session/Fifo.antt =====
-- The session on a pipe: FifoSession.cpp.
use client_server.Base.{
  Bool, true, false, ◌||◌, not, List, [], ◌∷◌, Option, none, some, if◌then◌else◌, Bytes, get_or,
}
use client_server.Charconv.{Charconv}
use client_server.Header.{Header, accepted, rejected, threw}
use client_server.Message.{Processed}
use client_server.Crypto.{Draws, blank_header}
use client_server.Session.Defs.{Service, Session, run_status, build_reply, process_task}
use client_server.Transport.{
  ReadResult, WriteResult, Written, write_done, write_refused, write_threw, write_waiting,
  read_fifo_message, send_fifo_message, Payloads,
}

-- What the system answers during one round: whether the pipe exists before the request and before
-- the reply, the reads and the writes, `none` where `open` fails, and the draws of the encryption.
pub record FifoTurn : Type 0 where
  pub exists_before : Bool
  pub reads : Option (List ReadResult)
  pub exists_after : Bool
  pub writes : Option (List WriteResult)
  pub draws : Draws

-- What a round leaves: the result of `receiveRequest`, a throw being caught as false, the session,
-- and the bytes on the pipe.
pub record FifoRound : Type 0 where
  pub goes_on : Bool
  pub session : Session
  pub wire : Bytes

abbrev pub breaks_off : Session → FifoRound
breaks_off s = record { goes_on = false; session = s; wire = [] }

-- What `sendMessage` returns to the session.
unfoldable pub sent : Session → Option (List WriteResult) → Written → Option FifoRound
sent s none w = some (breaks_off s)
sent s (some answers) w = elim w.ending [
  | write_done ↦ some (record { goes_on = true; session = s; wire = w.wire })
  | write_refused ↦ some (record { goes_on = true; session = s; wire = w.wire })
  | write_threw ↦ some (record { goes_on = false; session = s; wire = w.wire })
  | write_waiting ↦ none
]

abbrev pub single_payload : Bytes → Payloads
single_payload text = record { payload1 = text; payload2 = []; payload3 = []; payload4 = [] }

-- The request that a message brings, and the session before it.
abbrev pub with_request : Bytes → Session → Session
with_request text s = record s { request = text; status = run_status s.status }

module _ ⦃conv : Charconv⦄ where
  unfoldable pub send_built : FifoTurn → Session → Option (Header × Bytes) → Option FifoRound
  unfolding sent
  send_built turn s none = some (breaks_off s)
  send_built turn s (some (h, [])) = some (breaks_off s)
  send_built turn s (some (h, c ∷ text)) =
      sent s turn.writes (send_fifo_message turn.writes h (single_payload (c ∷ text)))

  unfoldable pub send_response : Service → FifoTurn → Session → Option FifoRound
  unfolding send_built
  send_response service turn s =
      if turn.exists_after
      then send_built turn s (build_reply service turn.draws s)
      else some (breaks_off s)

  unfoldable pub respond_if :
      Service → FifoTurn → Session → Option (Bool × Session) → Option FifoRound
  unfolding send_response
  respond_if service turn s none = some (breaks_off s)
  respond_if service turn s (some (false, s')) = some (breaks_off s')
  respond_if service turn s (some (true, s')) = send_response service turn s'

  unfoldable pub requested : Service → FifoTurn → Session → Option Processed → Option FifoRound
  unfolding respond_if
  requested service turn s none = none
  requested service turn s (some p) =
      let s' = with_request (get_or p.array 0 []) s in
      elim p.outcome [
        | accepted ↦ respond_if service turn s' (process_task service s')
        | rejected ↦ some (breaks_off s')
        | threw ↦ some (breaks_off s')
      ]

  -- `none` where it has not returned.
  unfoldable pub receive_request : Service → FifoTurn → Session → Option FifoRound
  unfolding requested
  receive_request service turn s =
      if turn.exists_before
      then requested service turn s (read_fifo_message true turn.reads blank_header ([] ∷ []))
      else some (breaks_off s)

  -- The loop of `run`, over the rounds that the system grants; `none` where it has not ended. The
  -- session is stopped by another thread, at the end of a round.
  unfoldable pub run_rounds : Service → List (FifoTurn × Bool) → Session → Option Session
  unfolding receive_request
  run_rounds service [] s = if s.stopped then some s else none
  run_rounds service ((turn, stopped) ∷ turns) s =
      if s.stopped then some s else elim (receive_request service turn s) [
        | none ↦ none
        | some round ↦
            if round.goes_on
            then run_rounds service turns
                (record round.session { stopped = round.session.stopped || stopped })
            else some round.session
      ]

  unfoldable pub run_session : Service → Bool → List (FifoTurn × Bool) → Session → Option Session
  unfolding run_rounds
  run_session service fifo_exists turns s =
      if not fifo_exists || s.stopped then some s else run_rounds service turns s

-- `start`: whether the pipe was made, or was there.
unfoldable pub start_fifo : Bool → Bool → Bool
start_fifo made there = made || there
