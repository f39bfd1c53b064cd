-- ===== src/Server/Defs.antt =====
-- The server's own state: Server.h and Server.cpp.
use client_server.Base.{
  ℕ, Bool, true, false, List, [], ◌∷◌, ◌++◌, Option, none, some, if◌then◌else◌, ◌==◌, ◌||◌,
}
use client_server.Ad.{AdBook, Money}
use client_server.Policy.Names.{PolicyEnum}
use client_server.ThreadPool.{Runnable, Running, ThreadPool, calculate_status, push_session}

-- A session behind the weak pointer of the map: `none` where it is gone. The last part says whether
-- its `stop` was called.
pub record KeptSession : Type 0 where
  pub session : Option Runnable
  pub stop_called : Bool

pub record Server : Type 0 where
  pub sessions : List (ℕ × KeptSession)
  pub pool : ThreadPool

-- Whether the map has the key.
unfoldable pub has_key : ℕ → List (ℕ × KeptSession) → Bool
has_key k [] = false
has_key k ((id, kept) ∷ sessions) = k == id || has_key k sessions

-- `startSession`, of a session whose `start` was called; what that returned is not looked at. The
-- order of the map is by key in the source and does not show here.
unfoldable pub start_session : Running → ℕ → Runnable → Server → Bool × Server
start_session running id r s =
    let (r', pool) = calculate_status running r s.pool in
    let kept : KeptSession = record { session = some r'; stop_called = false } in
    if has_key id s.sessions then (false, s) else (
      true,
      record { sessions = s.sessions ++ ((id, kept) ∷ []); pool = (push_session r' pool).1 },
    )

-- The first loop of `stopSessions` sets the flags, the second one calls `stop`.
unfoldable pub flagged : KeptSession → KeptSession
flagged kept = elim kept.session [
  | none ↦ kept
  | some r ↦ record kept { session = some (record r { stopped = true }) }
]

unfoldable pub stop_kept : KeptSession → KeptSession
stop_kept kept = elim kept.session [
  | none ↦ kept
  | some r ↦ record { session = some (record r { stopped = true }); stop_called = true }
]

unfoldable pub map_kept :
    (KeptSession → KeptSession) → List (ℕ × KeptSession) → List (ℕ × KeptSession)
map_kept f [] = []
map_kept f ((id, kept) ∷ sessions) = (id, f kept) ∷ map_kept f sessions

unfoldable pub stop_sessions : Server → Server
unfolding flagged stop_kept map_kept
stop_sessions s = record s { sessions = map_kept stop_kept (map_kept flagged s.sessions) }

-- `setPolicy`, of the lines of the file of advertisements and of the advertisements so far: the
-- policy and the advertisements, or `none` where it throws.
unfoldable pub set_policy :
    ⦃m : Money⦄ → PolicyEnum → (AdBook → AdBook) → AdBook → Option (PolicyEnum × AdBook)
set_policy PolicyEnum.no_sort_input read book = some (PolicyEnum.no_sort_input, read book)
set_policy PolicyEnum.sort_input read book = some (PolicyEnum.sort_input, read book)
set_policy PolicyEnum.echo_policy read book = some (PolicyEnum.echo_policy, book)
set_policy PolicyEnum.none read book = none

-- The acceptors that `start` gives to their pool.
pub data AcceptorKind : Type 0 where
  tcp_acceptor fifo_acceptor : AcceptorKind

-- `start` behind `setPolicy`: whether the controller is created and the acceptors start.
unfoldable pub start_server : Bool → Bool → Bool → Bool × List AcceptorKind
start_server false tcp fifo = (false, [])
start_server true false fifo = (false, [])
start_server true true false = (false, tcp_acceptor ∷ [])
start_server true true true = (true, tcp_acceptor ∷ fifo_acceptor ∷ [])
