-- ===== src/TaskController/Progress.antt =====
-- Until it is stopped the controller does not stand still.
use client_server.Base.{
  Bool-apart, ℕ, zero, suc, ◌<◌, Bool, false, List, [], ◌∷◌, ◌++◌, Option, some, ◌≡◌, ◌≢◌, refl,
  sym, ◌∙◌, arith, Bytes, All, length, get_elem?, ◌⊎◌, inl, inr, Bool-cases, ltb,
}
use client_server.Policy.Interface.{Policy}
use client_server.Request.{SizeTuple}
use client_server.Task.{Task, preprocess, has_more, request_at}
use client_server.Task.Work.{with_key}
use client_server.TaskController.Board.{Place, top, ready, claimed, wrote, arrived, left, all_top}
use client_server.TaskController.Defs.{
  TaskController, Phase, Step, pushed, stopping, enters, leaves, takes, preprocesses, processes,
  goes_on, arrives, completes, Reached, begins, steps, IsAt,
}
use client_server.TaskController.Entries.{All-get_elem?}
use client_server.TaskController.Barrier.{
  Completed, preprocessed, finishes, ended, went_on, on_completion-process, on_completion-Completed,
  on_completion-preprocess, on_completion-next, Phase-cases, List-cases,
}
use client_server.TaskController.Invariant.{All-set}

abbrev IsIn : Place → Type 0
IsIn place = place ≢ left

all_top-IsIn : (n : ℕ) → All IsIn (all_top n)
all_top-IsIn zero = tt
all_top-IsIn (suc n) = (λ e. cc, all_top-IsIn n)

arrived-IsIn : (places : List Place) → All (λ place. place ≡ arrived) places → All IsIn places
arrived-IsIn [] h = tt
arrived-IsIn (place ∷ places) h = (λ e. cc (sym h.0 ∙ e), arrived-IsIn places h.1)

-- All threads have arrived, or one of them is elsewhere.
arrived_or_busy :
    (places : List Place)
    → All (λ place. place ≡ arrived) places
      ⊎ ((w : ℕ) × (place : Place) × (get_elem? places w ≡ some place) × (place ≢ arrived))
arrived_or_busy [] = inl tt
arrived_or_busy (arrived ∷ places) = elim (arrived_or_busy places) [
  | inl all ↦ inl (refl, all)
  | inr (w, place, here, busy) ↦ inr (suc w, place, here, busy)
]
arrived_or_busy (top ∷ places) = inr (0, top, refl, λ e. cc)
arrived_or_busy (ready ∷ places) = inr (0, ready, refl, λ e. cc)
arrived_or_busy (claimed i ∷ places) = inr (0, claimed i, refl, λ e. cc)
arrived_or_busy (wrote ∷ places) = inr (0, wrote, refl, λ e. cc)
arrived_or_busy (left ∷ places) = inr (0, left, refl, λ e. cc)

module _ (create : Bytes → Option SizeTuple) (sorting : Bool) (p : Policy) where
  Completed-IsIn :
      (s s' : TaskController p)
      → All (λ place. place ≡ arrived) s.places
      → Completed p s s'
      → All IsIn s'.places
  Completed-IsIn s s' all (preprocessed e) = all_top-IsIn (length s.places)
  Completed-IsIn s s' all (finishes e) = arrived-IsIn s.places all
  Completed-IsIn s s' all (ended e f) = all_top-IsIn (length s.places)
  Completed-IsIn s s' all (went_on t queue e g) = all_top-IsIn (length s.places)

  -- While the controller is not stopped, no thread has left.
  Step-IsIn :
      (s s' : TaskController p)
      → Step create sorting s s'
      → (s.stopped ≡ false → All IsIn s.places)
      → s'.stopped ≡ false
      → All IsIn s'.places
  Step-IsIn _ _ (pushed s header text t) h e = h e
  Step-IsIn _ _ (stopping s) h e = absurd (Bool-apart e)
  Step-IsIn _ _ (enters s w here g) h e = All-set IsIn s.places w ready (h e) (λ f. cc)
  Step-IsIn _ _ (leaves s w here g) h e = absurd (Bool-apart (sym g ∙ e))
  Step-IsIn _ _ (takes s w here) h e = All-set IsIn s.places w _ (h e) (λ f. cc)
  Step-IsIn _ _ (preprocesses s w i t g here made) h e =
      All-set IsIn s.places w wrote (h e) (λ f. cc)
  Step-IsIn _ _ (processes s w i g here) h e = All-set IsIn s.places w wrote (h e) (λ f. cc)
  Step-IsIn _ _ (goes_on s w here g) h e = All-set IsIn s.places w ready (h e) (λ f. cc)
  Step-IsIn _ _ (arrives s w here g) h e = All-set IsIn s.places w arrived (h e) (λ f. cc)
  Step-IsIn _ _ (completes s s' all g) h e =
      Completed-IsIn s s' all (on_completion-Completed p s s' g)

  Reached-IsIn :
      (threads : ℕ) (s : TaskController p)
      → Reached create sorting threads s
      → s.stopped ≡ false
      → All IsIn s.places
  Reached-IsIn threads _ begins e = all_top-IsIn threads
  Reached-IsIn threads s (steps {s = before} r step) e =
      Step-IsIn before s step (Reached-IsIn threads before r) e

  -- While the barrier takes the next task, all threads have arrived, and the current task is the
  -- last one whose promise was fulfilled.
  abbrev pub IsKept : TaskController p → Type 0
  IsKept s =
      All (λ place. place ≡ arrived) s.places
      × ((before : List Task) × (s.finished ≡ before ++ (s.task ∷ [])))

  inside :
      {A : Type 0} (s : TaskController p) (w : ℕ) (place : Place)
      → IsAt s w place
      → place ≢ arrived
      → IsKept s
      → A
  inside s w place here busy k =
      absurd (busy (All-get_elem? (λ x. x ≡ arrived) s.places w place k.0 here))

  Completed-IsKept :
      (s s' : TaskController p)
      → All (λ place. place ≡ arrived) s.places
      → Completed p s s'
      → s'.phase ≡ Phase.taking_task
      → IsKept s'
  Completed-IsKept s s' all (preprocessed e) f = cc
  Completed-IsKept s s' all (finishes e) f = (all, (s.finished, refl))
  Completed-IsKept s s' all (ended e g) f = cc
  Completed-IsKept s s' all (went_on t queue e g) f = cc

  Step-IsKept :
      (s s' : TaskController p)
      → Step create sorting s s'
      → (s.phase ≡ Phase.taking_task → IsKept s)
      → s'.phase ≡ Phase.taking_task
      → IsKept s'
  Step-IsKept _ _ (pushed s header text t) h e = h e
  Step-IsKept _ _ (stopping s) h e = h e
  Step-IsKept _ _ (enters s w here g) h e = inside s w top here (λ f. cc) (h e)
  Step-IsKept _ _ (leaves s w here g) h e = inside s w top here (λ f. cc) (h e)
  Step-IsKept _ _ (takes s w here) h e = inside s w ready here (λ f. cc) (h e)
  Step-IsKept _ _ (preprocesses s w i t g here made) h e =
      inside s w (claimed i) here (λ f. cc) (h e)
  Step-IsKept _ _ (processes s w i g here) h e = inside s w (claimed i) here (λ f. cc) (h e)
  Step-IsKept _ _ (goes_on s w here g) h e = inside s w wrote here (λ f. cc) (h e)
  Step-IsKept _ _ (arrives s w here g) h e = inside s w wrote here (λ f. cc) (h e)
  Step-IsKept _ _ (completes s s' all g) h e =
      Completed-IsKept s s' all (on_completion-Completed p s s' g) e

  Reached-IsKept :
      (threads : ℕ) (s : TaskController p)
      → Reached create sorting threads s
      → s.phase ≡ Phase.taking_task
      → IsKept s
  Reached-IsKept threads _ begins e = cc
  Reached-IsKept threads s (steps {s = before} r step) e =
      Step-IsKept before s step (Reached-IsKept threads before r) e

  -- A step of a thread or of the barrier.
  abbrev pub IsOwn : {s s' : TaskController p} → Step create sorting s s' → Type 0
  IsOwn (pushed s header text t) = ⊥
  IsOwn (stopping s) = ⊥
  IsOwn _ = Unit

  -- A thread or the barrier can take a step; or all threads wait at the barrier for a task, and the
  -- promise of the current one, the last of the finished ones, is fulfilled.
  pub data Progress (s : TaskController p) : Type 0 where
    can_step : (s' : TaskController p) (step : Step create sorting s s') → IsOwn step → Progress s
    waits_for_task :
        All (λ place. place ≡ arrived) s.places
        → s.phase ≡ Phase.taking_task
        → s.queue ≡ []
        → (before : List Task) → s.finished ≡ before ++ (s.task ∷ [])
        → Progress s

  -- A size key can be made of each request of the current task.
  abbrev pub Keyed : TaskController p → Type 0
  Keyed s =
      (i : ℕ)
      → i < s.task.size
      → (key : SizeTuple) × (create (request_at s.task i).input ≡ some key)

  can_preprocess :
      (s : TaskController p) (i : ℕ) → Keyed s → (t : Task) × (preprocess create i s.task ≡ some t)
  unfolding preprocess
  can_preprocess s i keys = elim (Bool-cases (ltb i s.task.size)) [
    | inl e ↦
        let (key, made) = keys i (ground arith) in
        (with_key s.task i key, rw (e, made, preprocess) refl)
    | inr e ↦ (s.task, rw (e, preprocess) refl)
  ]

  thread-Progress :
      (s : TaskController p) (w : ℕ) (place : Place)
      → Keyed s
      → s.stopped ≡ false
      → IsAt s w place
      → place ≢ arrived
      → place ≢ left
      → (s.phase ≡ Phase.taking_task → IsKept s)
      → Progress s
  thread-Progress s w top keys e here busy in_loop kept = can_step _ (enters s w here e) tt
  thread-Progress s w ready keys e here busy in_loop kept = can_step _ (takes s w here) tt
  thread-Progress s w (claimed i) keys e here busy in_loop kept = elim (Phase-cases s.phase) [
    | inl f ↦
        let (t, made) = can_preprocess s i keys in can_step _ (preprocesses s w i t f here made) tt
    | inr (inl f) ↦ can_step _ (processes s w i f here) tt
    | inr (inr f) ↦ inside s w (claimed i) here busy (kept f)
  ]
  thread-Progress s w wrote keys e here busy in_loop kept = elim (Bool-cases (has_more s.task)) [
    | inl more ↦ can_step _ (goes_on s w here more) tt
    | inr done ↦ can_step _ (arrives s w here done) tt
  ]
  thread-Progress s w arrived keys e here busy in_loop kept = absurd (busy refl)
  thread-Progress s w left keys e here busy in_loop kept = absurd (in_loop refl)

  barrier-Progress :
      (s : TaskController p)
      → s.stopped ≡ false
      → All (λ place. place ≡ arrived) s.places
      → (s.phase ≡ Phase.taking_task → IsKept s)
      → Progress s
  barrier-Progress s e all kept = elim (Phase-cases s.phase) [
    | inl f ↦ can_step _ (completes s _ all (on_completion-preprocess p s f)) tt
    | inr (inl f) ↦ can_step _ (completes s _ all (on_completion-process p s f)) tt
    | inr (inr f) ↦ elim (List-cases s.queue) [
      | inl g ↦ let last = (kept f).1 in waits_for_task all f g last.0 last.1
      | inr (t, queue, g) ↦ can_step _ (completes s _ all (on_completion-next p s t queue f e g)) tt
    ]
  ]

  -- In every reached state that is not stopped and where a size key can be made of each request
  -- of the current task, a thread or the barrier can take a step, unless all threads have come to
  -- the barrier, which is about to take the next task, the queue is empty, and the current task
  -- is the last of those whose promises are fulfilled.
  pub Reached-Progress :
      (threads : ℕ) (s : TaskController p)
      → Reached create sorting threads s
      → s.stopped ≡ false
      → Keyed s
      → Progress s
  Reached-Progress threads s r e keys = elim (arrived_or_busy s.places) [
    | inl all ↦ barrier-Progress s e all (Reached-IsKept threads s r)
    | inr (w, place, here, busy) ↦
        thread-Progress s w place keys e here busy
          (All-get_elem? IsIn s.places w place (Reached-IsIn threads s r e) here)
          (Reached-IsKept threads s r)
  ]
