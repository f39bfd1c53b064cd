-- ===== src/ThreadPool/Queue.antt =====
-- Which runnable a thread takes.
use client_server.Base.{
  ◌<◌, ◌≤◌, ◌⊎◌, List, [], ◌∷◌, ◌++◌, Bool, true, false, Option, none, some, length, ◌==◌, ◌≡◌,
  refl, ap, arith, All, Bool-cases, inl, inr,
}
use client_server.ThreadPool.Defs.{
  Runnable, Running, ThreadPool, take_first, may_run_session, can_run_one_more, found, get_by,
  get_session,
}

-- A result of the loop: the first entry that may run is taken out, if there is one.
abbrev IsFirst : (Runnable → Bool) → List Runnable → Option (Runnable × List Runnable) → Type 0
IsFirst may queue none = All (λ r. may r ≡ false) queue
IsFirst may queue (some (r, rest)) =
    (before : List Runnable) × (after : List Runnable) × (queue ≡ before ++ (r ∷ after))
    × (rest ≡ before ++ after)
    × (may r ≡ true)
    × All (λ x. may x ≡ false) before

IsFirst-behind :
    (may : Runnable → Bool) (r : Runnable) (queue : List Runnable)
    (o : Option (Runnable × List Runnable))
    → may r ≡ false
    → IsFirst may queue o
    → IsFirst may (r ∷ queue) (elim o [ none ↦ none | some (x, xs) ↦ some (x, r ∷ xs) ])
IsFirst-behind may r queue none e h = (e, h)
IsFirst-behind may r queue (some (x, xs)) e h =
    (r ∷ h.0, h.1, ap (◌∷◌ r) h.2, ap (◌∷◌ r) h.3, h.4, (e, h.5))

take_first-IsFirst :
    (may : Runnable → Bool) (queue : List Runnable) → IsFirst may queue (take_first may queue)
unfolding take_first
take_first-IsFirst may [] = tt
take_first-IsFirst may (r ∷ queue) = elim (Bool-cases (may r)) [
  | inl e ↦ rw (take_first, e) ([], queue, refl, refl, e, tt)
  | inr e ↦ rw (take_first, e) (IsFirst-behind may r queue _ e (take_first-IsFirst may queue))
]

-- Fewer sessions of its type run than its limit, and it is not stopped.
abbrev pub MayRun : Running → Runnable → Type 0
MayRun running r =
    (running.number_running_by_type r.kind < r.max_number_running_by_type) × (r.stopped ≡ false)

-- Its type has come to its limit, or it is stopped.
abbrev pub IsHeldBack : Running → Runnable → Type 0
IsHeldBack running r =
    (r.max_number_running_by_type ≤ running.number_running_by_type r.kind) ⊎ (r.stopped ≡ true)

may_run_session-MayRun :
    (running : Running) (r : Runnable) → may_run_session running r ≡ true → MayRun running r
unfolding may_run_session can_run_one_more
may_run_session-MayRun running r e = (ground (arith, e), ground (arith, e))

may_run_session-IsHeldBack :
    (running : Running) (r : Runnable) → may_run_session running r ≡ false → IsHeldBack running r
unfolding may_run_session can_run_one_more
may_run_session-IsHeldBack running r e = elim (Bool-cases r.stopped) [
  | inl f ↦ inr f
  | inr f ↦ inl (ground (arith, e, f))
]

held-IsHeldBack :
    (running : Running) (queue : List Runnable)
    → All (λ r. may_run_session running r ≡ false) queue
    → All (IsHeldBack running) queue
held-IsHeldBack running [] h = tt
held-IsHeldBack running (r ∷ queue) h =
    (may_run_session-IsHeldBack running r h.0, held-IsHeldBack running queue h.1)

-- What a thread gets from a pool: the first runnable of the queue that may run, the others keeping
-- their order, or nothing where none may, and then the pool is as before.
abbrev pub IsTaken : Running → ThreadPool → Option Runnable × ThreadPool → Type 0
IsTaken running p (none, q) = (q ≡ p) × All (IsHeldBack running) p.queue
IsTaken running p (some r, q) =
    (before : List Runnable) × (after : List Runnable) × (p.queue ≡ before ++ (r ∷ after))
    × (q ≡ record p { queue = before ++ after })
    × MayRun running r
    × All (IsHeldBack running) before

found-IsTaken :
    (running : Running) (p : ThreadPool) (o : Option (Runnable × List Runnable))
    → IsFirst (may_run_session running) p.queue o
    → IsTaken running p (found o p)
unfolding found
found-IsTaken running p none h = (refl, held-IsHeldBack running p.queue h)
found-IsTaken running p (some (r, rest)) h = (
  h.0,
  h.1,
  h.2,
  ap (λ (q : List Runnable). record p { queue = q }) h.3,
  may_run_session-MayRun running r h.4,
  held-IsHeldBack running h.0 h.5,
)

-- Of a queue that is not empty, in a pool that is not stopped, a thread takes the first runnable
-- of whose type fewer run than its limit and that is not stopped, behind others whose type has
-- come to its limit or that are stopped, the others keeping their order; or it takes nothing
-- where all are such, and then the pool is as before.
pub get_session-IsTaken :
    (running : Running) (p : ThreadPool)
    → p.stopped ≡ false
    → 0 < length p.queue
    → (taken : Option Runnable × ThreadPool) × (get_session running p ≡ some taken)
      × IsTaken running p taken
unfolding get_session get_by
get_session-IsTaken running p going more =
    let may = may_run_session running in
    let waiting : (length p.queue == 0) ≡ false = ground arith in
    (
      found (take_first may p.queue) p,
      rw (get_session, get_by, going, waiting) refl,
      found-IsTaken running p _ (take_first-IsFirst may p.queue),
    )
