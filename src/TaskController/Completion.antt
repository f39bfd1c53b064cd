-- ===== src/TaskController/Completion.antt =====
-- The barrier's completion keeps the invariant, and so every state that is reached has it.
use client_server.Base.{
  ℕ, zero, suc, ◌<◌, Bool, ◌∷◌, Option, ◌≡◌, refl, subst, arith, Bytes, All, All-append, length,
  length-replicate, replicate, ltb-false,
}
use client_server.Policy.Interface.{Policy}
use client_server.Request.{SizeTuple}
use client_server.Task.{finish, sort_indices, reset_index}
use client_server.Task.Update.{
  IsUpdated, empty_task-IsUpdated, sort_indices-IsUpdated, IsUpdated-shape, update-IsUpdated,
}
use client_server.Task.Work.{HasKey, IsAnswered, org_index-onto}
use client_server.TaskController.Board.{
  arrived, Board, Board-start, Board-done, top, left, ready, wrote,
}
use client_server.TaskController.Defs.{
  TaskController, Phase, started, restart, Step, pushed, stopping, enters, leaves, takes,
  preprocesses, processes, goes_on, arrives, completes, Reached, begins, steps,
}
use client_server.TaskController.Barrier.{
  Completed, preprocessed, finishes, ended, went_on, on_completion-Completed,
}
use client_server.TaskController.Invariant.{
  IsComplete, IsDone, Invariant, at_phase, Invariant-move, Invariant-take,
}
use client_server.TaskController.Working.{Invariant-preprocess, Invariant-process}

module _ (create : Bytes → Option SizeTuple) (sorting : Bool) (p : Policy) where
  -- When all threads have arrived after the second phase, the task is complete.
  task-IsComplete :
      (s : TaskController p)
      → s.phase ≡ Phase.process_task
      → All (λ place. place ≡ arrived) s.places
      → Invariant create sorting p s
      → IsComplete create sorting p s.task
  task-IsComplete s e all v k below =
      let (j, fits, org) = org_index-onto p sorting s.task k v.task_updated below in
      let done = Board-done _ s.task.size s.task.index s.places all v.some_thread v.board j fits in
      (
        v.keyed e k below,
        subst (IsAnswered p s.task) org
            (at_phase create sorting p s.phase Phase.process_task e s.task j done),
      )

  Invariant-restart :
      (s : TaskController p) (phase : Phase)
      → IsUpdated sorting s.task
      → All (IsUpdated sorting) s.queue
      → All p.IsFresh s.kept
      → 0 < length s.places
      → (phase ≡ Phase.process_task → (j : ℕ) → j < s.task.size → HasKey create s.task j)
      → All (IsComplete create sorting p) s.finished
      → Invariant create sorting p (restart phase s)
  Invariant-restart s phase u q f n keyed done = record {
    task_updated = IsUpdated-shape sorting s.task (reset_index s.task) refl refl refl refl u;
    queue_updated = q;
    kept_fresh = f;
    some_thread = omega (arith, n, length-replicate (length s.places) top);
    board = Board-start _ s.task.size (length s.places);
    keyed = keyed;
    finished_complete = done;
  }

  Invariant-complete :
      (s s' : TaskController p)
      → All (λ place. place ≡ arrived) s.places
      → Completed p s s'
      → Invariant create sorting p s
      → Invariant create sorting p s'
  unfolding sort_indices
  Invariant-complete s s' all (preprocessed e) v =
      Invariant-restart (record s { task = sort_indices s.task }) Phase.process_task
        (sort_indices-IsUpdated sorting s.task v.task_updated) v.queue_updated v.kept_fresh
        v.some_thread
        (λ f j fits.
          at_phase create sorting p s.phase Phase.preprocess_task e s.task j
            (Board-done _ s.task.size s.task.index s.places all v.some_thread v.board j fits))
        v.finished_complete
  Invariant-complete s s' all (finishes e) v = record {
    task_updated =
        IsUpdated-shape sorting s.task (finish s.task) refl refl refl refl v.task_updated;
    queue_updated = v.queue_updated;
    kept_fresh = v.kept_fresh;
    some_thread = v.some_thread;
    board =
        subst (λ x. Board (IsDone create sorting p x s.task) s.task.size s.task.index s.places) e
          v.board;
    keyed = λ f. cc;
    finished_complete =
        All-append _ s.finished _ v.finished_complete (task-IsComplete s e all v, tt);
  }
  Invariant-complete s s' all (ended e f) v =
      Invariant-restart s Phase.preprocess_task v.task_updated v.queue_updated v.kept_fresh
        v.some_thread (λ f. cc) v.finished_complete
  Invariant-complete s s' all (went_on t queue e g) v =
      let waiting : All (IsUpdated sorting) (t ∷ queue) = rw g at v.queue_updated in
      Invariant-restart (record s { task = t; queue = queue }) Phase.preprocess_task waiting.0
        waiting.1 v.kept_fresh v.some_thread (λ f. cc) v.finished_complete

  Invariant-Step :
      (s s' : TaskController p)
      → Step create sorting s s'
      → Invariant create sorting p s
      → Invariant create sorting p s'
  Invariant-Step _ _ (pushed s header text t) v = record {
    task_updated = v.task_updated;
    queue_updated =
        All-append _ s.queue _ v.queue_updated (update-IsUpdated sorting header text t, tt);
    kept_fresh = v.kept_fresh;
    some_thread = v.some_thread;
    board = v.board;
    keyed = v.keyed;
    finished_complete = v.finished_complete;
  }
  Invariant-Step _ _ (stopping s) v = record {
    task_updated = v.task_updated;
    queue_updated = v.queue_updated;
    kept_fresh = v.kept_fresh;
    some_thread = v.some_thread;
    board = v.board;
    keyed = v.keyed;
    finished_complete = v.finished_complete;
  }
  Invariant-Step _ _ (enters s w here e) v =
      Invariant-move create sorting p s w top ready here (λ j f. cc) (λ f. cc) v
  Invariant-Step _ _ (leaves s w here e) v =
      Invariant-move create sorting p s w top left here (λ j f. cc) (λ f. cc) v
  Invariant-Step _ _ (takes s w here) v = Invariant-take create sorting p s w here v
  Invariant-Step _ _ (preprocesses s w i t e here h) v =
      Invariant-preprocess create sorting p s w i t e here h v
  Invariant-Step _ _ (processes s w i e here) v = Invariant-process create sorting p s w i e here v
  Invariant-Step _ _ (goes_on s w here e) v =
      Invariant-move create sorting p s w wrote ready here (λ j f. cc) (λ f. cc) v
  Invariant-Step _ _ (arrives s w here e) v =
      Invariant-move create sorting p s w wrote arrived here (λ j f. cc)
        (λ f. ltb-false s.task.index s.task.size e) v
  Invariant-Step _ _ (completes s s' all h) v =
      Invariant-complete s s' all (on_completion-Completed p s s' h) v

  All-replicate : {A : Type 0} (P : A → Type 0) (n : ℕ) (a : A) → P a → All P (replicate n a)
  All-replicate P zero a h = tt
  All-replicate P (suc n) a h = (h, All-replicate P n a h)

  Invariant-started : (threads : ℕ) → 0 < threads → Invariant create sorting p (started p threads)
  Invariant-started threads n = record {
    task_updated = empty_task-IsUpdated sorting;
    queue_updated = tt;
    kept_fresh = All-replicate p.IsFresh threads p.start p.start_fresh;
    some_thread = omega (arith, length-replicate threads top);
    board = Board-start _ 0 threads;
    keyed = λ e. cc;
    finished_complete = tt;
  }

  pub Reached-Invariant :
      (threads : ℕ) (s : TaskController p)
      → 0 < threads
      → Reached create sorting threads s
      → Invariant create sorting p s
  Reached-Invariant threads _ n begins = Invariant-started threads n
  Reached-Invariant threads s n (steps {s = before} r step) =
      Invariant-Step before s step (Reached-Invariant threads before n r)

  -- With one thread or more, whatever the policy and in whatever order the threads take their
  -- steps, tasks are pushed and the controller is stopped: each task whose promise is fulfilled
  -- has, for each of its requests, the size key made from the request's text, and at the
  -- request's own place in the response the policy's answer to it.
  pub finished-IsComplete :
      (threads : ℕ) (s : TaskController p)
      → 0 < threads
      → Reached create sorting threads s
      → All (IsComplete create sorting p) s.finished
  finished-IsComplete threads s n r = (Reached-Invariant threads s n r).finished_complete
