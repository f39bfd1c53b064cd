-- ===== src/TaskController/Defs.antt =====
-- The controller as a step relation: a step of one thread is one access to what the threads share,
-- and a task is pushed, or the controller stopped, at any time.
use client_server.Base.{
  ℕ, Bool, true, false, List, [], ◌∷◌, ◌++◌, Option, none, some, if◌then◌else◌, ◌≡◌, Bytes, All,
  get_elem?, get_or, set, length, replicate,
}
use client_server.Header.{Header}
use client_server.Policy.Interface.{Policy}
use client_server.Request.{SizeTuple}
use client_server.Task.{
  Task, empty_task, update, sort_indices, reset_index, fetch_add, preprocess, process, has_more,
  finish,
}
use client_server.TaskController.Board.{Place, top, ready, claimed, wrote, arrived, left, all_top}

-- `taking_task` is the part of the completion behind the task's `finish`: the barrier is inside
-- `setNextTask`, and `_phase` is still PROCESSTASK.
pub data Phase : Type 0 where
  preprocess_task process_task taking_task : Phase

-- `places` and `kept` have one entry for each thread. `finished` collects the tasks whose promise
-- was given its value, as their sessions then find them.
pub record TaskController (p : Policy) : Type 0 where
  pub task : Task
  pub queue : List Task
  pub phase : Phase
  pub stopped : Bool
  pub places : List Place
  pub kept : List p.Kept
  pub finished : List Task

-- `create` with a number of threads.
abbrev pub started : (p : Policy) → ℕ → TaskController p
started p threads = record {
  task = empty_task;
  queue = [];
  phase = Phase.preprocess_task;
  stopped = false;
  places = all_top threads;
  kept = replicate threads p.start;
  finished = [];
}

module _ {p : Policy} where
  abbrev pub push : Task → TaskController p → TaskController p
  push t s = record s { queue = s.queue ++ t ∷ [] }

  -- `none` while it waits.
  unfoldable pub set_next_task : TaskController p → Option (TaskController p)
  set_next_task s =
      if s.stopped
      then some s
      else elim s.queue [ [] ↦ none | t ∷ queue ↦ some (record s { task = t; queue = queue }) ]

  abbrev pub restart : Phase → TaskController p → TaskController p
  restart phase s = record s {
    task = reset_index s.task;
    phase = phase;
    places = all_top (length s.places);
  }

  -- `onCompletion`. Its steps are those that others can see: the promise is fulfilled first, and
  -- then the next task is waited for; `restart` is where the barrier lets the threads go.
  unfoldable pub on_completion : TaskController p → Option (TaskController p)
  unfolding set_next_task
  on_completion s = elim s.phase [
    | Phase.preprocess_task ↦
        some (restart Phase.process_task (record s { task = sort_indices s.task }))
    | Phase.process_task ↦ some (record s {
      task = finish s.task;
      finished = s.finished ++ finish s.task ∷ [];
      phase = Phase.taking_task;
    })
    | Phase.taking_task ↦ elim (set_next_task s) [
      | none ↦ none
      | some s' ↦ some (restart Phase.preprocess_task s')
    ]
  ]

  abbrev pub IsAt : TaskController p → ℕ → Place → Type 0
  IsAt s w place = get_elem? s.places w ≡ some place

  abbrev pub move : ℕ → Place → TaskController p → TaskController p
  move w place s = record s { places = set s.places w place }

  -- The steps. A session pushes a task that it updated; `createSizeKey` is the argument `create`,
  -- and where it throws there is no next state: the program is terminated.
  pub data Step (create : Bytes → Option SizeTuple) (sorting : Bool)
      : TaskController p → TaskController p → Type 0 where
    pushed :
        (s : TaskController p) (header : Header) (text : Bytes) (t : Task)
        → Step create sorting s (push (update sorting header text t) s)
    stopping : (s : TaskController p) → Step create sorting s (record s { stopped = true })
    enters :
        (s : TaskController p) (w : ℕ)
        → IsAt s w top
        → s.stopped ≡ false
        → Step create sorting s (move w ready s)
    leaves :
        (s : TaskController p) (w : ℕ)
        → IsAt s w top
        → s.stopped ≡ true
        → Step create sorting s (move w left s)
    takes :
        (s : TaskController p) (w : ℕ)
        → IsAt s w ready
        → Step create sorting s
            (move w (claimed s.task.index) (record s { task = fetch_add s.task }))
    preprocesses :
        (s : TaskController p) (w i : ℕ) (t : Task)
        → s.phase ≡ Phase.preprocess_task
        → IsAt s w (claimed i)
        → preprocess create i s.task ≡ some t
        → Step create sorting s (move w wrote (record s { task = t }))
    processes :
        (s : TaskController p) (w i : ℕ)
        → s.phase ≡ Phase.process_task
        → IsAt s w (claimed i)
        → Step create sorting s (
            move w wrote (record s {
              task = (process p sorting i s.task (get_or s.kept w p.start)).0;
              kept = set s.kept w (process p sorting i s.task (get_or s.kept w p.start)).1;
            }))
    goes_on :
        (s : TaskController p) (w : ℕ)
        → IsAt s w wrote
        → has_more s.task ≡ true
        → Step create sorting s (move w ready s)
    arrives :
        (s : TaskController p) (w : ℕ)
        → IsAt s w wrote
        → has_more s.task ≡ false
        → Step create sorting s (move w arrived s)
    completes :
        (s s' : TaskController p)
        → All (λ place. place ≡ arrived) s.places
        → on_completion s ≡ some s'
        → Step create sorting s s'

  pub data Reached (create : Bytes → Option SizeTuple) (sorting : Bool) (threads : ℕ)
      : TaskController p → Type 0 where
    begins : Reached create sorting threads (started p threads)
    steps :
        {s s' : TaskController p}
        → Reached create sorting threads s
        → Step create sorting s s'
        → Reached create sorting threads s'
