-- ===== src/TaskController/Barrier.antt =====
-- What the barrier does when all threads have come to it.
use mathlib.Core.Option.{some-injective}
use client_server.Base.{
  true, false, List, [], ◌∷◌, ◌++◌, none, some, ◌≡◌, ◌⊎◌, refl, sym, ◌∙◌, subst, Bool-cases, inl,
  inr,
}
use client_server.Policy.Interface.{Policy}
use client_server.Task.{Task, finish, sort_indices}
use client_server.TaskController.Defs.{TaskController, Phase, restart, set_next_task, on_completion}

pub Phase-cases :
    (x : Phase) → (x ≡ Phase.preprocess_task) ⊎ ((x ≡ Phase.process_task) ⊎ (x ≡ Phase.taking_task))
Phase-cases Phase.preprocess_task = inl refl
Phase-cases Phase.process_task = inr (inl refl)
Phase-cases Phase.taking_task = inr (inr refl)

pub List-cases : {A : Type 0} (xs : List A) → (xs ≡ []) ⊎ ((x : A) × (ys : List A) × (xs ≡ x ∷ ys))
List-cases [] = inl refl
List-cases (x ∷ ys) = inr (x, ys, refl)

module _ (p : Policy) where
  -- The current task, with its promise fulfilled.
  abbrev pub closed : TaskController p → TaskController p
  closed s = record s {
    task = finish s.task;
    finished = s.finished ++ finish s.task ∷ [];
    phase = Phase.taking_task;
  }

  pub data Completed (s : TaskController p) : TaskController p → Type 0 where
    preprocessed :
        s.phase ≡ Phase.preprocess_task
        → Completed s (restart Phase.process_task (record s { task = sort_indices s.task }))
    finishes : s.phase ≡ Phase.process_task → Completed s (closed s)
    ended :
        s.phase ≡ Phase.taking_task
        → s.stopped ≡ true
        → Completed s (restart Phase.preprocess_task s)
    went_on :
        (t : Task) (queue : List Task)
        → s.phase ≡ Phase.taking_task
        → s.queue ≡ t ∷ queue
        → Completed s (restart Phase.preprocess_task (record s { task = t; queue = queue }))

  pub on_completion-preprocess :
      (s : TaskController p)
      → s.phase ≡ Phase.preprocess_task
      → on_completion s
        ≡ some (restart Phase.process_task (record s { task = sort_indices s.task }))
  unfolding on_completion
  on_completion-preprocess s e = rw (on_completion, e)

  pub on_completion-process :
      (s : TaskController p) → s.phase ≡ Phase.process_task → on_completion s ≡ some (closed s)
  unfolding on_completion
  on_completion-process s e = rw (on_completion, e)

  on_completion-stopped :
      (s : TaskController p)
      → s.phase ≡ Phase.taking_task
      → s.stopped ≡ true
      → on_completion s ≡ some (restart Phase.preprocess_task s)
  unfolding on_completion set_next_task
  on_completion-stopped s e f = rw (on_completion, e, f)

  on_completion-waits :
      (s : TaskController p)
      → s.phase ≡ Phase.taking_task
      → s.stopped ≡ false
      → s.queue ≡ []
      → on_completion s ≡ none
  unfolding on_completion set_next_task
  on_completion-waits s e f g = rw (on_completion, e, f, g)

  pub on_completion-next :
      (s : TaskController p) (t : Task) (queue : List Task)
      → s.phase ≡ Phase.taking_task
      → s.stopped ≡ false
      → s.queue ≡ t ∷ queue
      → on_completion s
        ≡ some (restart Phase.preprocess_task (record s { task = t; queue = queue }))
  unfolding on_completion set_next_task
  on_completion-next s t queue e f g = rw (on_completion, e, f, g) (rw f)

  pub on_completion-Completed :
      (s s' : TaskController p) → on_completion s ≡ some s' → Completed s s'
  on_completion-Completed s s' h = elim (Phase-cases s.phase) [
    | inl e ↦
        subst (Completed s) (some-injective _ _ (sym (on_completion-preprocess s e) ∙ h))
          (preprocessed e)
    | inr (inl e) ↦
        subst (Completed s) (some-injective _ _ (sym (on_completion-process s e) ∙ h)) (finishes e)
    | inr (inr e) ↦ elim (Bool-cases s.stopped) [
      | inl f ↦
          subst (Completed s) (some-injective _ _ (sym (on_completion-stopped s e f) ∙ h))
            (ended e f)
      | inr f ↦ elim (List-cases s.queue) [
        | inl g ↦ cc (sym (on_completion-waits s e f g) ∙ h)
        | inr (t, queue, g) ↦
            subst (Completed s) (some-injective _ _ (sym (on_completion-next s t queue e f g) ∙ h))
              (went_on t queue e g)
      ]
    ]
  ]
