-- ===== src/Client/Ending.antt =====
-- When the loop of the client ends.
use client_server.Base.{
  Bool-apart, ℕ, zero, suc, ◌+◌, ◌≤◌, ◌<◌, Bool, true, false, Option, none, some, List, get_elem?,
  Option-cases, inl, inr, if◌then◌else◌, ltb, ◌==◌, ◌≡◌, refl, sym, ◌∙◌, arith, ==_iff, lt→ltb,
}
use client_server.TaskBuilder.{Subtask}
use client_server.Client.Loop.{
  Gotten, Ran, returned, out_of_range, unreturned, is_error, received_next, exchange, exchange_all,
  process_gotten, ClientOptions, process_client_task, goes_on, run_tasks,
}

-- A call that returns.
abbrev pub IsBack {ℓ} : {A : Type ℓ} → Option A → Type ℓ
IsBack {A = A} o = (x : A) × (o ≡ some x)

-- The call has ended.
abbrev pub IsOver : {S : Type 0} → Ran S → Type 0
IsOver (returned b s) = Unit
IsOver (out_of_range s) = Unit
IsOver (unreturned s) = ⊥

-- The loop has ended, behind so many tasks at most, and no call inside it is left waiting.
abbrev pub HasEnded : {S : Type 0} → ℕ → Option (ℕ × Ran S) → Type 0
HasEnded {S = S} limit o = (n : ℕ) × (r : Ran S) × (o ≡ some (n, r)) × (n ≤ limit) × IsOver r

module _ {S : Type 0} (send : Subtask → S → Option (Bool × S)) (receive : S → Option (Bool × S))
    (resume_builder : S → S) (get_task : S → Option (Option Gotten × S)) (options : ClientOptions)
    (sends : (subtask : Subtask) (s : S) → IsBack (send subtask s))
    (receives : (s : S) → IsBack (receive s)) (gets : (s : S) → IsBack (get_task s)) where
  exchanges :
      (o : Option (Bool × S))
      → IsBack o
      → IsBack (received_next send receive resume_builder get_task options o)
  unfolding received_next
  exchanges none h = cc (h.1)
  exchanges (some (false, s)) h = ((false, s), refl)
  exchanges (some (true, s)) h = receives s

  tested-IsOver : (b : Bool) (x y : Ran S) → IsOver x → IsOver y → IsOver (if b then x else y)
  tested-IsOver true x y h k = h
  tested-IsOver false x y h k = k

  exchange_all-IsOver :
      (left i : ℕ) (subtasks : List Subtask) (s : S)
      → IsOver (exchange_all send receive resume_builder get_task options left i subtasks s)
  unfolding exchange_all exchange
  exchange_all-IsOver zero i subtasks s = tt
  exchange_all-IsOver (suc left) i subtasks s = elim (Option-cases (get_elem? subtasks i)) [
    | inl e ↦ rw (exchange_all, e) tt
    | inr (subtask, e) ↦
        let (r, f) = exchanges (send subtask s) (sends subtask s) in
        rw (exchange_all, e, exchange, f)
          (tested-IsOver r.0 _ _ (exchange_all-IsOver left (i + 1) subtasks r.1) tt)
  ]

  gotten-IsOver :
      (s : S) (o : Option (Option Gotten × S))
      → IsBack o
      → IsOver (process_gotten send receive resume_builder get_task options s o)
  unfolding process_gotten
  gotten-IsOver s none h = cc (h.1)
  gotten-IsOver s (some (none, s')) h = tt
  gotten-IsOver s (some (some g, s')) h =
      tested-IsOver (is_error g.status) _ _ tt (exchange_all-IsOver g.size 0 g.subtasks _)

  abbrev loop : ℕ → ℕ → S → Option (ℕ × Ran S)
  loop = run_tasks send receive resume_builder get_task options

  abbrev task_of : S → Ran S
  task_of = process_client_task send receive resume_builder get_task options

  abbrev on_behind : ℕ → Bool
  on_behind count = goes_on send receive resume_builder get_task options (suc count)

  task-IsOver : (s : S) → IsOver (task_of s)
  unfolding process_client_task
  task-IsOver s = gotten-IsOver s (get_task s) (gets s)

  step_ends :
      (limit count : ℕ) (ran : Ran S) (rest : S → Option (ℕ × Ran S)) (on : Bool)
      → count < limit
      → IsOver ran
      → (on ≡ true → (s : S) → HasEnded limit (rest s))
      → HasEnded limit (elim ran [
        | out_of_range s' ↦ some (count, out_of_range s')
        | unreturned s' ↦ some (count, unreturned s')
        | returned false s' ↦ some (count, returned false s')
        | returned true s' ↦ if on then rest s' else some (suc count, returned true s')
      ])
  step_ends limit count (out_of_range s) rest on lt v h =
      (count, out_of_range s, refl, omega arith, tt)
  step_ends limit count (unreturned s) rest on lt v h = absurd v
  step_ends limit count (returned false s) rest on lt v h =
      (count, returned false s, refl, omega arith, tt)
  step_ends limit count (returned true s) rest true lt v h = h refl s
  step_ends limit count (returned true s) rest false lt v h =
      (suc count, returned true s, refl, omega arith, tt)

  last_task :
      (count : ℕ)
      → suc count ≡ options.max_number_tasks
      → goes_on send receive resume_builder get_task options (suc count) ≡ false
  unfolding goes_on
  last_task count e =
      let reached : (suc count == options.max_number_tasks) ≡ true = (==_iff _ _).1 e in
      let limited : ltb 0 options.max_number_tasks ≡ true = lt→ltb _ _ (omega (arith, e)) in
      rw (goes_on, limited, reached) refl

  limited_ends :
      (fuel count : ℕ) (s : S)
      → count + suc fuel ≡ options.max_number_tasks
      → HasEnded options.max_number_tasks (loop (suc fuel) count s)
  unfolding run_tasks
  limited_ends zero count s e =
      step_ends options.max_number_tasks count (task_of s) (loop 0 (suc count)) (on_behind count)
        (omega (arith, e)) (task-IsOver s)
        (λ on. absurd (Bool-apart (sym on ∙ last_task count (omega (arith, e)))))
  limited_ends (suc fuel) count s e =
      let one_less : suc count + suc fuel ≡ options.max_number_tasks = omega (arith, e) in
      step_ends options.max_number_tasks count (task_of s) (loop (suc fuel) (suc count))
        (on_behind count) (omega (arith, e)) (task-IsOver s)
        (λ on t. limited_ends fuel (suc count) t one_less)

  limited :
      (n : ℕ)
      → n ≡ options.max_number_tasks
      → (s : S) → 0 < n
      → HasEnded options.max_number_tasks (loop n 0 s)
  limited zero e s lt = absurd (omega arith)
  limited (suc n) e s lt = limited_ends n 0 s (omega (arith, e))
