-- ===== src/TaskController/Working.antt =====
-- The work of a thread on its request keeps the invariant.
use client_server.Base.{
  ℕ, ◌≤◌, ◌<◌, Bool, Option, some, ◌≡◌, refl, sym, subst, arith, Bytes, length, get_or, set,
  length-set, inl, inr,
}
use client_server.Policy.Interface.{Policy}
use client_server.Request.{SizeTuple}
use client_server.Task.{Task, process, preprocess, request_at}
use client_server.Task.Update.{IsUpdated-shape}
use client_server.Task.Work.{
  preprocess_cases, with_key, with_key-HasKey, process_cases, with_reply, with_reply-IsAnswered,
}
use client_server.TaskController.Board.{claimed, wrote, Board-move}
use client_server.TaskController.Defs.{TaskController, Phase, move, IsAt}
use client_server.TaskController.Invariant.{
  claimed-injective, All-get_or, All-set, Invariant, at_phase, Invariant-move,
}

module _ (create : Bytes → Option SizeTuple) (sorting : Bool) (p : Policy) where
  beyond_end : {i j n : ℕ} → claimed i ≡ claimed j → j < n → n ≤ i → ⊥
  beyond_end e fits beyond = omega (arith, claimed-injective e)

  write_key :
      (s : TaskController p) (w i : ℕ) (key : SizeTuple)
      → s.phase ≡ Phase.preprocess_task
      → IsAt s w (claimed i)
      → i < s.task.size
      → create (request_at s.task i).input ≡ some key
      → Invariant create sorting p s
      → Invariant create sorting p (move w wrote (record s { task = with_key s.task i key }))
  write_key s w i key phase here below made v =
      let inside : i < length s.task.requests = omega (arith, v.task_updated.requests_enough) in
      record {
        task_updated =
            IsUpdated-shape sorting s.task (with_key s.task i key) (length-set s.task.requests i _)
              refl refl refl v.task_updated;
        queue_updated = v.queue_updated;
        kept_fresh = v.kept_fresh;
        some_thread = omega (arith, length-set s.places w wrote, v.some_thread);
        board =
            Board-move _ _ s.task.size s.task.index s.task.index w s.places (claimed i) wrote
              (λ j fits d. at_phase create sorting p Phase.preprocess_task s.phase (sym phase) _ j (
                with_key-HasKey create s.task i j key inside made
                  (inl (at_phase create sorting p s.phase Phase.preprocess_task phase _ j d))))
              (omega arith) here
              (λ j fits e.
                at_phase create sorting p Phase.preprocess_task s.phase (sym phase) _ j
                  (with_key-HasKey create s.task i j key inside made (inr (claimed-injective e))))
              (λ j low high fits. absurd (omega arith)) (λ e. cc) v.board;
        keyed = λ e. cc;
        finished_complete = v.finished_complete;
      }

  keep_all :
      (s : TaskController p) (w i : ℕ)
      → IsAt s w (claimed i)
      → s.task.size ≤ i
      → Invariant create sorting p s
      → Invariant create sorting p
          (move w wrote (record s { kept = set s.kept w (get_or s.kept w p.start) }))
  keep_all s w i here beyond v =
      let v' =
        Invariant-move create sorting p s w (claimed i) wrote here
          (λ j e fits. absurd (beyond_end e fits beyond)) (λ e. cc) v in
      record {
        task_updated = v'.task_updated;
        queue_updated = v'.queue_updated;
        kept_fresh =
            All-set p.IsFresh s.kept w _ v.kept_fresh
              (All-get_or p.IsFresh s.kept w p.start v.kept_fresh p.start_fresh);
        some_thread = v'.some_thread;
        board = v'.board;
        keyed = v'.keyed;
        finished_complete = v'.finished_complete;
      }

  write_reply :
      (s : TaskController p) (w i : ℕ)
      → s.phase ≡ Phase.process_task
      → IsAt s w (claimed i)
      → i < s.task.size
      → Invariant create sorting p s
      → Invariant create sorting p (
          move w wrote (record s {
            task = (with_reply p sorting i s.task (get_or s.kept w p.start)).0;
            kept = set s.kept w (with_reply p sorting i s.task (get_or s.kept w p.start)).1;
          }))
  write_reply s w i phase here below v =
      let fresh = All-get_or p.IsFresh s.kept w p.start v.kept_fresh p.start_fresh in
      record {
        task_updated =
            IsUpdated-shape sorting s.task _ refl refl (length-set s.task.response _ _) refl
              v.task_updated;
        queue_updated = v.queue_updated;
        kept_fresh =
            All-set p.IsFresh s.kept w _ v.kept_fresh
              (p.respond_fresh _ s.task.diagnostics _ fresh).1;
        some_thread = omega (arith, length-set s.places w wrote, v.some_thread);
        board =
            Board-move _ _ s.task.size s.task.index s.task.index w s.places (claimed i) wrote
              (λ j fits d. at_phase create sorting p Phase.process_task s.phase (sym phase) _ j (
                with_reply-IsAnswered p sorting s.task i j _ v.task_updated below fresh
                  (inl (at_phase create sorting p s.phase Phase.process_task phase _ j d))))
              (omega arith) here
              (λ j fits e. at_phase create sorting p Phase.process_task s.phase (sym phase) _ j (
                with_reply-IsAnswered p sorting s.task i j _ v.task_updated below fresh
                  (inr (claimed-injective e))))
              (λ j low high fits. absurd (omega arith)) (λ e. cc) v.board;
        keyed = v.keyed;
        finished_complete = v.finished_complete;
      }

  pub Invariant-preprocess :
      (s : TaskController p) (w i : ℕ) (t : Task)
      → s.phase ≡ Phase.preprocess_task
      → IsAt s w (claimed i)
      → preprocess create i s.task ≡ some t
      → Invariant create sorting p s
      → Invariant create sorting p (move w wrote (record s { task = t }))
  Invariant-preprocess s w i t phase here e v = elim (preprocess_cases create i s.task t e) [
    | inl (beyond, same) ↦
        subst (λ x. Invariant create sorting p (move w wrote (record s { task = x }))) (sym same)
          (Invariant-move create sorting p s w (claimed i) wrote here
            (λ j f fits. absurd (beyond_end f fits beyond)) (λ f. cc) v)
    | inr (key, below, made, same) ↦
        subst (λ x. Invariant create sorting p (move w wrote (record s { task = x }))) (sym same)
          (write_key s w i key phase here below made v)
  ]

  pub Invariant-process :
      (s : TaskController p) (w i : ℕ)
      → s.phase ≡ Phase.process_task
      → IsAt s w (claimed i)
      → Invariant create sorting p s
      → Invariant create sorting p (
          move w wrote (record s {
            task = (process p sorting i s.task (get_or s.kept w p.start)).0;
            kept = set s.kept w (process p sorting i s.task (get_or s.kept w p.start)).1;
          }))
  Invariant-process s w i phase here v =
      elim (process_cases p sorting i s.task (get_or s.kept w p.start)) [
        | inl (beyond, same) ↦
            subst
              (λ (r : Task × p.Kept).
                Invariant create sorting p
                  (move w wrote (record s { task = r.0; kept = set s.kept w r.1 })))
              (sym same) (keep_all s w i here beyond v)
        | inr (below, same) ↦
            subst
              (λ (r : Task × p.Kept).
                Invariant create sorting p
                  (move w wrote (record s { task = r.0; kept = set s.kept w r.1 })))
              (sym same) (write_reply s w i phase here below v)
      ]
