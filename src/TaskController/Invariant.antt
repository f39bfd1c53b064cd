-- ===== src/TaskController/Invariant.antt =====
-- What holds in every state of the controller, step by step.
use client_server.Base.{
  ℕ, zero, suc, ◌+◌, ◌≤◌, ◌<◌, Bool, List, [], ◌∷◌, Option, ◌≡◌, refl, ap, subst, arith, Bytes, All,
  length, get_or, set, length-set,
}
use client_server.Policy.Interface.{Policy}
use client_server.Request.{SizeTuple}
use client_server.Task.{Task, fetch_add, org_index}
use client_server.Task.Update.{IsUpdated, IsUpdated-shape}
use client_server.Task.Work.{HasKey, IsAnswered}
use client_server.TaskController.Board.{Place, ready, claimed, arrived, Board, Board-move}
use client_server.TaskController.Defs.{TaskController, Phase, move, IsAt}

pub claimed-injective : {i j : ℕ} → claimed i ≡ claimed j → i ≡ j
claimed-injective e = cc

pub All-get_or :
    {A : Type 0} (P : A → Type 0) (xs : List A) (i : ℕ) (d : A) → All P xs → P d → P (get_or xs i d)
All-get_or P [] i d a h = h
All-get_or P (x ∷ xs) zero d a h = a.0
All-get_or P (x ∷ xs) (suc i) d a h = All-get_or P xs i d a.1 h

pub All-set :
    {A : Type 0} (P : A → Type 0) (xs : List A) (i : ℕ) (v : A)
    → All P xs
    → P v
    → All P (set xs i v)
All-set P [] i v a h = a
All-set P (x ∷ xs) zero v a h = (h, a.1)
All-set P (x ∷ xs) (suc i) v a h = (a.0, All-set P xs i v a.1 h)

module _ (create : Bytes → Option SizeTuple) (sorting : Bool) (p : Policy) where
  -- The work of a phase on an index.
  abbrev pub IsDone : Phase → Task → ℕ → Type 0
  IsDone Phase.preprocess_task t j = HasKey create t j
  IsDone Phase.process_task t j = IsAnswered p t (org_index sorting t j)
  IsDone Phase.taking_task t j = IsAnswered p t (org_index sorting t j)

  -- Each request has its size key and its reply.
  abbrev pub IsComplete : Task → Type 0
  IsComplete t = (k : ℕ) → k < t.size → HasKey create t k × IsAnswered p t k

  pub record Invariant (s : TaskController p) : Type 0 where
    pub task_updated : IsUpdated sorting s.task
    pub queue_updated : All (IsUpdated sorting) s.queue
    pub kept_fresh : All p.IsFresh s.kept
    pub some_thread : 0 < length s.places
    pub board : Board (IsDone s.phase s.task) s.task.size s.task.index s.places
    pub keyed : s.phase ≡ Phase.process_task → (j : ℕ) → j < s.task.size → HasKey create s.task j
    pub finished_complete : All IsComplete s.finished

  pub at_phase : (a b : Phase) → a ≡ b → (t : Task) (j : ℕ) → IsDone a t j → IsDone b t j
  at_phase a b e t j d = subst (λ x. IsDone x t j) e d

  -- A thread moves, with no work done and no index taken.
  pub Invariant-move :
      (s : TaskController p) (w : ℕ) (old new : Place)
      → IsAt s w old
      → ((j : ℕ) → old ≡ claimed j → j < s.task.size → IsDone s.phase s.task j)
      → (new ≡ arrived → s.task.size ≤ s.task.index)
      → Invariant s
      → Invariant (move w new s)
  Invariant-move s w old new here nothing late v = record {
    task_updated = v.task_updated;
    queue_updated = v.queue_updated;
    kept_fresh = v.kept_fresh;
    some_thread = omega (arith, length-set s.places w new, v.some_thread);
    board =
        Board-move _ _ s.task.size s.task.index s.task.index w s.places old new (λ j fits d. d)
          (omega arith) here (λ j fits e. nothing j e fits)
          (λ j low high fits. absurd (omega arith)) late v.board;
    keyed = v.keyed;
    finished_complete = v.finished_complete;
  }

  same_work : (phase : Phase) (t : Task) (j : ℕ) → IsDone phase t j → IsDone phase (fetch_add t) j
  same_work Phase.preprocess_task t j d = d
  same_work Phase.process_task t j d = d
  same_work Phase.taking_task t j d = d

  pub Invariant-take :
      (s : TaskController p) (w : ℕ)
      → IsAt s w ready
      → Invariant s
      → Invariant (move w (claimed s.task.index) (record s { task = fetch_add s.task }))
  Invariant-take s w here v = record {
    task_updated =
        IsUpdated-shape sorting s.task (fetch_add s.task) refl refl refl refl v.task_updated;
    queue_updated = v.queue_updated;
    kept_fresh = v.kept_fresh;
    some_thread = omega (arith, length-set s.places w (claimed s.task.index), v.some_thread);
    board =
        Board-move _ _ s.task.size s.task.index (s.task.index + 1) w s.places ready _
          (λ j fits d. same_work s.phase s.task j d) (omega arith) here (λ j fits e. cc)
          (λ j low high fits. ap claimed (omega arith)) (λ e. cc) v.board;
    keyed = v.keyed;
    finished_complete = v.finished_complete;
  }
