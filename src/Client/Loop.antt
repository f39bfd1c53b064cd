-- ===== src/Client/Loop.antt =====
-- The loops of client_src/Client.cpp, over what the task builder gives and what sending and receiving
-- return. `S` is the state that these change.
use client_server.Base.{
  ℕ, zero, suc, ◌+◌, Bool, true, false, ◌&&◌, not, List, Option, none, some, if◌then◌else◌, ltb,
  ◌==◌, get_elem?,
}
use client_server.Header.{Status}
use client_server.TaskBuilder.{Subtask}

-- What `getTask` returns with the subtasks that it leaves in `_task`.
pub record Gotten : Type 0 where
  pub size : ℕ
  pub status : Status
  pub subtasks : List Subtask

-- How a call ends: with a result, by an access behind the end of the subtasks, which is undefined,
-- or not at all, as a call inside it does not return, with the state before that call.
pub data Ran (S : Type 0) : Type 0 where
  returned : Bool → S → Ran S
  out_of_range : S → Ran S
  unreturned : S → Ran S

pub record ClientOptions : Type 0 where
  pub run_loop : Bool
  pub max_number_tasks : ℕ

unfoldable pub is_error : Status → Bool
is_error Status.error = true
is_error status = false

-- Sending, receiving and `getTask` are `none` where they do not return: they may wait for ever, or
-- throw.
module _ {S : Type 0} (send : Subtask → S → Option (Bool × S)) (receive : S → Option (Bool × S))
    (resume_builder : S → S) (get_task : S → Option (Option Gotten × S))
    (options : ClientOptions) where
  unfoldable pub received_next : Option (Bool × S) → Option (Bool × S)
  received_next none = none
  received_next (some (false, s)) = some (false, s)
  received_next (some (true, s)) = receive s

  -- `send(_task[i]) && receive()`
  unfoldable pub exchange : Subtask → S → Option (Bool × S)
  unfolding received_next
  exchange subtask s = received_next (send subtask s)

  -- The loop of `processTask`, with the rounds that are left and the next index.
  unfoldable pub exchange_all : ℕ → ℕ → List Subtask → S → Ran S
  exchange_all zero i subtasks s = returned true s
  exchange_all (suc left) i subtasks s = elim (get_elem? subtasks i) [
    | none ↦ out_of_range s
    | some subtask ↦ elim (exchange subtask s) [
      | none ↦ unreturned s
      | some r ↦
          let rest = exchange_all left (i + 1) subtasks r.1 in
          if r.0 then rest else returned false r.1
    ]
  ]

  unfoldable pub process_gotten : S → Option (Option Gotten × S) → Ran S
  unfolding is_error exchange_all
  process_gotten before none = unreturned before
  process_gotten before (some (none, s)) = returned false s
  process_gotten before (some (some g, s)) =
      let s' = if options.run_loop then resume_builder s else s in
      if is_error g.status then returned false s else exchange_all g.size 0 g.subtasks s'

  -- `processTask`. `get_task` gives nothing where the builder is gone.
  unfoldable pub process_client_task : S → Ran S
  unfolding process_gotten
  process_client_task s = process_gotten s (get_task s)

  -- Whether `run` goes on behind a task, of the number of tasks with it.
  unfoldable pub goes_on : ℕ → Bool
  goes_on count =
      not (ltb 0 options.max_number_tasks && count == options.max_number_tasks) && options.run_loop

  -- `run`, on fuel, with the number of tasks so far: that number at the end, with the state, and
  -- `none` where there is a further round. A call that does not return is the end of the rounds.
  unfoldable pub run_tasks : ℕ → ℕ → S → Option (ℕ × Ran S)
  unfolding goes_on
  run_tasks zero count s = none
  run_tasks (suc fuel) count s = elim (process_client_task s) [
    | out_of_range s' ↦ some (count, out_of_range s')
    | unreturned s' ↦ some (count, unreturned s')
    | returned false s' ↦ some (count, returned false s')
    | returned true s' ↦
        let rest = run_tasks fuel (suc count) s' in
        if goes_on (suc count) then rest else some (suc count, returned true s')
  ]
