-- ===== src/TaskController/Order.antt =====
-- The controller answers what is pushed, in the order of the pushes.
use client_server.Base.{
  Bool-apart, ℕ, zero, suc, ◌<◌, Bool, true, List, [], ◌∷◌, ◌++◌, Option, some, ◌≡◌, ◌≢◌, refl, sym,
  ◌∙◌, arith, subst, Bytes, All, length, map, get_or, append_assoc, append-nil, length-set, ◌⊎◌,
  inl, inr,
}
use client_server.Header.{Header}
use client_server.Crypto.{blank_header}
use client_server.Policy.Interface.{Policy}
use client_server.Request.{SizeTuple}
use client_server.Task.{
  Task, empty_task, sort_indices, process, finish, reset_index, preprocess, org_index,
}
use client_server.Task.Work.{with_reply, preprocess_cases, process_cases}
use client_server.Task.Answers.{
  Pushed, answers, IsOf, update-IsOf, IsOf-shape, with_key-IsOf, response-answers,
}
use client_server.TaskController.Board.{Place, top, ready, claimed, wrote, arrived, left, all_top}
use client_server.TaskController.Defs.{
  TaskController, Phase, Step, pushed, stopping, enters, leaves, takes, preprocesses, processes,
  goes_on, arrives, completes, Reached, begins, steps, IsAt,
}
use client_server.TaskController.Entries.{All2, All2-append, All2-at, All2-map, All-get_elem?}
use client_server.TaskController.Barrier.{
  Completed, preprocessed, finishes, ended, went_on, on_completion-Completed,
}
use client_server.TaskController.Invariant.{IsComplete, All-set}
use client_server.TaskController.Completion.{Reached-Invariant, finished-IsComplete}

abbrev IsAtRest : Place → Type 0
IsAtRest place = (place ≡ top) ⊎ (place ≡ left)

not_arrived :
    (places : List Place)
    → 0 < length places
    → All IsAtRest places
    → All (λ place. place ≡ arrived) places
    → ⊥
not_arrived [] n h k = absurd (omega arith)
not_arrived (place ∷ places) n h k = elim h.0 [
  | inl e ↦ cc (sym e ∙ k.0)
  | inr e ↦ cc (sym e ∙ k.0)
]

all_top-rest : (n : ℕ) → All IsAtRest (all_top n)
all_top-rest zero = tt
all_top-rest (suc n) = (inl refl, all_top-rest n)

-- The task of the start counts as one that was pushed with no text.
abbrev pub at_start : Pushed
at_start = record { header = blank_header; text = [] }

at_start-IsOf : IsOf at_start empty_task
unfolding client_server.Header.is_diagnostics_enabled
at_start-IsOf = record {
  size_of = refl;
  rows_enough = omega arith;
  inputs_of = λ k lt. absurd (omega (arith, lt));
  diagnostics_of = refl;
  response_of = refl;
  requests_of = omega arith;
}

module _ (create : Bytes → Option SizeTuple) (sorting : Bool) (p : Policy) where
  abbrev pushes_step : {s s' : TaskController p} → Step create sorting s s' → List Pushed
  pushes_step (pushed s header text t) = record { header = header; text = text } ∷ []
  pushes_step _ = []

  -- What was pushed on the way to a state, in the order of the pushes.
  abbrev pub pushes_of :
      {threads : ℕ} {s : TaskController p} → Reached create sorting threads s → List Pushed
  pushes_of begins = []
  pushes_of (steps r step) = pushes_of r ++ pushes_step step

  -- No thread works: all have come to the barrier, or none is between the loop's test and it.
  abbrev IsIdle : TaskController p → Type 0
  IsIdle s = All (λ place. place ≡ arrived) s.places ⊎ All IsAtRest s.places

  -- The tasks stand in the order of the pushes. While the barrier takes the next task, the current
  -- one is the last of the finished ones. Behind the last completion, when the controller is
  -- stopped, the current task is one of the finished ones, and no thread enters any more.
  data InOrder (works : List Pushed) (s : TaskController p) : Type 0 where
    going :
        s.phase ≢ Phase.taking_task
        → All2 IsOf works (s.finished ++ (s.task ∷ s.queue))
        → InOrder works s
    between :
        s.phase ≡ Phase.taking_task
        → All (λ place. place ≡ arrived) s.places
        → All2 IsOf works (s.finished ++ s.queue)
        → InOrder works s
    over :
        s.stopped ≡ true
        → All IsAtRest s.places
        → All2 IsOf works (s.finished ++ s.queue)
        → InOrder works s

  unpushed :
      (works : List Pushed) (s : TaskController p) → InOrder works s → InOrder (works ++ []) s
  unpushed works s h = subst (λ l. InOrder l s) (sym (append-nil works)) h

  -- The current task is worked on.
  InOrder-task :
      (works : List Pushed) (s s' : TaskController p)
      → s'.phase ≡ s.phase
      → s'.finished ≡ s.finished
      → s'.queue ≡ s.queue
      → ((w : Pushed) → IsOf w s.task → IsOf w s'.task)
      → (IsIdle s → ⊥)
      → InOrder works s
      → InOrder (works ++ []) s'
  InOrder-task works s s' x e f g busy (over stopped rest h) = absurd (busy (inr rest))
  InOrder-task works s s' x e f g busy (between y all h) = absurd (busy (inl all))
  InOrder-task works s s' x e f g busy (going y h) = unpushed works s' (
      going (λ z. y (sym x ∙ z))
        (subst (λ (l : List Task). All2 IsOf works (l ++ (s'.task ∷ s'.queue))) (sym e)
          (subst (λ (l : List Task). All2 IsOf works (s.finished ++ (s'.task ∷ l))) (sym f)
            (All2-at IsOf works s.finished s.queue s.task s'.task g h))))

  -- A thread at such a place is at work.
  at_work :
      (s : TaskController p) (w : ℕ) (place : Place)
      → IsAt s w place
      → (IsAtRest place → ⊥)
      → place ≢ arrived
      → IsIdle s
      → ⊥
  at_work s w place here busy inside (inr rest) =
      busy (All-get_elem? IsAtRest s.places w place rest here)
  at_work s w place here busy inside (inl all) =
      inside (All-get_elem? (λ x. x ≡ arrived) s.places w place all here)

  InOrder-push :
      (works : List Pushed) (s : TaskController p) (w : Pushed) (t : Task)
      → IsOf w t
      → InOrder works s
      → InOrder (works ++ (w ∷ [])) (record s { queue = s.queue ++ (t ∷ []) })
  InOrder-push works s w t o (going y h) = going y (
      subst (All2 IsOf (works ++ (w ∷ []))) (append_assoc s.finished (s.task ∷ s.queue) (t ∷ []))
        (All2-append IsOf works (w ∷ []) (s.finished ++ (s.task ∷ s.queue)) (t ∷ []) h (o, tt)))
  InOrder-push works s w t o (between y all h) = between y all (
      subst (All2 IsOf (works ++ (w ∷ []))) (append_assoc s.finished s.queue (t ∷ []))
        (All2-append IsOf works (w ∷ []) (s.finished ++ s.queue) (t ∷ []) h (o, tt)))
  InOrder-push works s w t o (over stopped rest h) = over stopped rest (
      subst (All2 IsOf (works ++ (w ∷ []))) (append_assoc s.finished s.queue (t ∷ []))
        (All2-append IsOf works (w ∷ []) (s.finished ++ s.queue) (t ∷ []) h (o, tt)))

  InOrder-complete :
      (works : List Pushed) (s s' : TaskController p)
      → 0 < length s.places
      → All (λ place. place ≡ arrived) s.places
      → Completed p s s'
      → InOrder works s
      → InOrder works s'
  unfolding sort_indices
  InOrder-complete works s s' n all c (over stopped rest h) =
      absurd (not_arrived s.places n rest all)
  InOrder-complete works s s' n all (preprocessed e) (between y k h) = cc (y, e)
  InOrder-complete works s s' n all (finishes e) (between y k h) = cc (y, e)
  InOrder-complete works s s' n all (ended e stopped) (going y h) = absurd (y e)
  InOrder-complete works s s' n all (went_on t queue e g) (going y h) = absurd (y e)
  InOrder-complete works s s' n all (preprocessed e) (going y h) =
      going (λ z. cc)
        (All2-at IsOf works s.finished s.queue s.task _
          (λ w. IsOf-shape w s.task _ refl refl refl refl) h)
  InOrder-complete works s s' n all (finishes e) (going y h) = between refl all (
      subst (All2 IsOf works) (sym (append_assoc s.finished (finish s.task ∷ []) s.queue)) (
        All2-at IsOf works s.finished s.queue s.task (finish s.task)
          (λ w. IsOf-shape w s.task (finish s.task) refl refl refl refl) h))
  InOrder-complete works s s' n all (ended e stopped) (between y k h) =
      over stopped (all_top-rest (length s.places)) h
  InOrder-complete works s s' n all (went_on t queue e g) (between y k h) =
      going (λ z. cc)
        (All2-at IsOf works s.finished queue t (reset_index t)
          (λ w. IsOf-shape w t (reset_index t) refl refl refl refl)
          (subst (λ (l : List Task). All2 IsOf works (s.finished ++ l)) g h))

  preprocessed_task :
      (s : TaskController p) (t : Task) (i : ℕ)
      → preprocess create i s.task ≡ some t
      → (w : Pushed) → IsOf w s.task
      → IsOf w t
  preprocessed_task s t i made w o = elim (preprocess_cases create i s.task t made) [
    | inl (big, same) ↦ subst (IsOf w) (sym same) o
    | inr (key, small, found, same) ↦
        subst (IsOf w) (sym same) (with_key-IsOf w s.task i key small o)
  ]

  processed_task :
      (s : TaskController p) (i : ℕ) (kept : p.Kept) (w : Pushed)
      → IsOf w s.task
      → IsOf w (process p sorting i s.task kept).0
  processed_task s i kept w o = elim (process_cases p sorting i s.task kept) [
    | inl (big, same) ↦ subst (λ r. IsOf w r.0) (sym same) o
    | inr (small, same) ↦
        subst (λ r. IsOf w r.0) (sym same)
          (IsOf-shape w s.task (with_reply p sorting i s.task kept).0 refl refl refl
            (length-set s.task.response (org_index sorting s.task i) _) o)
  ]

  InOrder-work :
      (works : List Pushed) (s s' : TaskController p)
      → 0 < length s.places
      → (step : Step create sorting s s') → InOrder works s
      → InOrder (works ++ pushes_step step) s'
  InOrder-work works _ _ n (pushed s header text t) h =
      InOrder-push works s _ _ (update-IsOf sorting header text t) h
  InOrder-work works _ _ n (stopping s) (going y h) = unpushed works _ (going y h)
  InOrder-work works _ _ n (stopping s) (between y all h) = unpushed works _ (between y all h)
  InOrder-work works _ _ n (stopping s) (over e rest h) = unpushed works _ (over refl rest h)
  InOrder-work works _ _ n (enters s w here e) (going y h) = unpushed works _ (going y h)
  InOrder-work works _ _ n (enters s w here e) (between y all h) =
      cc (All-get_elem? (λ x. x ≡ arrived) s.places w top all here)
  InOrder-work works _ _ n (enters s w here e) (over f rest h) = absurd (Bool-apart (sym f ∙ e))
  InOrder-work works _ _ n (leaves s w here e) (going y h) = unpushed works _ (going y h)
  InOrder-work works _ _ n (leaves s w here e) (between y all h) =
      cc (All-get_elem? (λ x. x ≡ arrived) s.places w top all here)
  InOrder-work works _ _ n (leaves s w here e) (over f rest h) =
      unpushed works _ (over f (All-set IsAtRest s.places w left rest (inr refl)) h)
  InOrder-work works _ _ n (takes s w here) h =
      InOrder-task works s _ refl refl refl (λ v. IsOf-shape v s.task _ refl refl refl refl)
        (at_work s w ready here (λ r. elim r [ inl e ↦ cc e | inr e ↦ cc e ]) (λ e. cc)) h
  InOrder-work works _ _ n (preprocesses s w i t e here made) h =
      InOrder-task works s _ refl refl refl (preprocessed_task s t i made)
        (at_work s w (claimed i) here (λ r. elim r [ inl e ↦ cc e | inr e ↦ cc e ]) (λ e. cc)) h
  InOrder-work works _ _ n (processes s w i e here) h =
      InOrder-task works s _ refl refl refl (processed_task s i (get_or s.kept w p.start))
        (at_work s w (claimed i) here (λ r. elim r [ inl e ↦ cc e | inr e ↦ cc e ]) (λ e. cc)) h
  InOrder-work works _ _ n (goes_on s w here e) h =
      InOrder-task works s _ refl refl refl (λ v o. o)
        (at_work s w wrote here (λ r. elim r [ inl e ↦ cc e | inr e ↦ cc e ]) (λ e. cc)) h
  InOrder-work works _ _ n (arrives s w here e) h =
      InOrder-task works s _ refl refl refl (λ v o. o)
        (at_work s w wrote here (λ r. elim r [ inl e ↦ cc e | inr e ↦ cc e ]) (λ e. cc)) h
  InOrder-work works _ _ n (completes s s' all e) h =
      unpushed works s' (InOrder-complete works s s' n all (on_completion-Completed p s s' e) h)

  Reached-InOrder :
      (threads : ℕ) (s : TaskController p)
      → 0 < threads
      → (r : Reached create sorting threads s) → InOrder (at_start ∷ pushes_of r) s
  Reached-InOrder threads _ n begins = going (λ e. cc) (at_start-IsOf, tt)
  Reached-InOrder threads s n (steps {s = before} r step) =
      InOrder-work (at_start ∷ pushes_of r) before s
        (Reached-Invariant create sorting p threads before n r).some_thread step
        (Reached-InOrder threads before n r)

  finished_in_front :
      (works : List Pushed) (s : TaskController p)
      → InOrder works s
      → (others : List Task) × All2 IsOf works (s.finished ++ others)
  finished_in_front works s (going y h) = (s.task ∷ s.queue, h)
  finished_in_front works s (between y all h) = (s.queue, h)
  finished_in_front works s (over e rest h) = (s.queue, h)

  -- With one thread or more, whatever the policy and in whatever order the threads take their
  -- steps, tasks are pushed and the controller is stopped: the responses of the tasks whose
  -- promises are fulfilled are, in their order, a part in front of what is to be answered to the
  -- texts in the order in which they were pushed, an empty text of the start before them: for
  -- each row of a text that a delimiter ends, the policy's answer to a request with the size key
  -- made from the row.
  pub responses-answers :
      (threads : ℕ) (s : TaskController p)
      → 0 < threads
      → (r : Reached create sorting threads s)
      → (rest : List (List Bytes)) × (map (λ t. t.response) s.finished ++ rest
          ≡ map (answers create p) (at_start ∷ pushes_of r))
  responses-answers threads s n r =
      let (others, h) =
        finished_in_front (at_start ∷ pushes_of r) s (Reached-InOrder threads s n r) in
      All2-map IsOf (IsComplete create sorting p) (answers create p) (λ t. t.response)
        (at_start ∷ pushes_of r) s.finished others (response-answers create p) h
        (finished-IsComplete create sorting p threads s n r)
