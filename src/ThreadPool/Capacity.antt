-- ===== src/ThreadPool/Capacity.antt =====
-- The threads of a pool, and the runnables inside `run`, never exceed its size.
use mathlib.Core.Option.{some-injective}
use client_server.Base.{
  ℕ, zero, suc, ◌+◌, ◌≤◌, ◌<◌, List, [], ◌∷◌, ◌++◌, Bool, true, false, ◌&&◌, Option, none, some,
  if◌then◌else◌, length, get_elem?, set, length-append, length-set, ltb→lt, ◌≡◌, refl, sym, ap, ◌∙◌,
  ◌⊎◌, subst, arith, Bool-cases, inl, inr,
}
use client_server.ThreadPool.Defs.{
  Runnable, Worker, free, holding, busy, ended, ThreadPool, create_thread, add_object, finally,
  pool_size, needs_thread, calculate_status, push_session, found, get_by, get_session,
  count_running, uncount_running,
}
use client_server.ThreadPool.Steps.{
  Sessions, got, take_up, start_run, end_run, work, PoolMove, calculate, enqueue, work_on,
  stop_pool, pool_step, Served, at_first, then_move,
}

abbrev pub inside : Worker → ℕ
inside free = 0
inside (holding r) = 0
inside (busy r) = 1
inside ended = 0

-- The threads inside `run`.
abbrev pub number_inside : List Worker → ℕ
number_inside [] = 0
number_inside (w ∷ ws) = inside w + number_inside ws

number_inside-append :
    (ws vs : List Worker) → number_inside (ws ++ vs) ≡ number_inside ws + number_inside vs
number_inside-append [] vs = omega arith
number_inside-append (w ∷ ws) vs = omega (arith, number_inside-append ws vs)

number_inside-set :
    (ws : List Worker) (i : ℕ) (w v : Worker)
    → get_elem? ws i ≡ some w
    → number_inside (set ws i v) + inside w ≡ number_inside ws + inside v
number_inside-set [] i w v h = cc
number_inside-set (x ∷ ws) zero w v h = omega (arith, ap inside (some-injective _ _ h))
number_inside-set (x ∷ ws) (suc i) w v h = omega (arith, number_inside-set ws i w v h)

inside_le : (w : Worker) → inside w ≤ 1
inside_le free = omega arith
inside_le (holding r) = omega arith
inside_le (busy r) = omega arith
inside_le ended = omega arith

number_inside_le : (ws : List Worker) → number_inside ws ≤ length ws
number_inside_le [] = omega arith
number_inside_le (w ∷ ws) = omega (arith, number_inside_le ws, inside_le w)

-- The pool has its size, and no more threads; the counter is the number of threads inside `run`.
pub record IsWithin (max_size : ℕ) (s : Sessions) : Type 0 where
  pub same_size : s.pool.max_size ≡ max_size
  pub threads_fit : length s.pool.threads ≤ max_size
  pub counted : s.running.number_running_total ≡ number_inside s.pool.threads

and_parts : (a b : Bool) → (a && b) ≡ true → (a ≡ true) × (b ≡ true)
and_parts true b h = (refl, h)
and_parts false b h = cc

-- One more thread, where there is room.
create_thread-IsWithin :
    (n : ℕ) (s : Sessions)
    → IsWithin n s
    → length s.pool.threads < n
    → IsWithin n (record s { pool = create_thread (add_object s.pool) })
unfolding create_thread add_object
create_thread-IsWithin n s h room = record {
  same_size = h.same_size;
  threads_fit = omega (arith, length-append s.pool.threads (free ∷ []));
  counted = omega (arith, h.counted, number_inside-append s.pool.threads (free ∷ []));
}

calculate_status-IsWithin :
    (n : ℕ) (r : Runnable) (s : Sessions) → IsWithin n s → IsWithin n (pool_step (calculate r) s)
unfolding pool_step calculate_status needs_thread add_object pool_size
calculate_status-IsWithin n r s h =
    elim (Bool-cases (needs_thread s.running r (add_object s.pool))) [
      | inl e ↦
          let room : length s.pool.threads < s.pool.max_size =
            ltb→lt _ _ (and_parts _ _ (and_parts _ _ e).1).1 in
          rw (pool_step, calculate_status, e)
            (create_thread-IsWithin n s h (omega (arith, room, h.same_size)))
      | inr e ↦
          rw (pool_step, calculate_status, e)
            (record { same_size = h.same_size; threads_fit = h.threads_fit; counted = h.counted })
    ]

-- A thread goes on to another place in its loop, and the counter with it.
move-IsWithin :
    (n i : ℕ) (s t : Sessions) (w v : Worker)
    → IsWithin n s
    → get_elem? s.pool.threads i ≡ some w
    → t.pool.max_size ≡ s.pool.max_size
    → t.pool.threads ≡ set s.pool.threads i v
    → t.running.number_running_total + inside w ≡ s.running.number_running_total + inside v
    → IsWithin n t
move-IsWithin n i s t w v h at size moved count = record {
  same_size = size ∙ h.same_size;
  threads_fit = omega (
    arith,
    h.threads_fit,
    ap (λ (ws : List Worker). length ws) moved,
    length-set s.pool.threads i v,
  );
  counted =
      omega (
        arith,
        h.counted,
        count,
        ap number_inside moved,
        number_inside-set s.pool.threads i w v at,
      );
}

got-IsWithin :
    (n i : ℕ) (s : Sessions) (o : Option (Runnable × List Runnable))
    → IsWithin n s
    → get_elem? s.pool.threads i ≡ some free
    → IsWithin n (got i s (found o s.pool))
unfolding got found finally
got-IsWithin n i s none h at = record {
  same_size = h.same_size;
  threads_fit = h.threads_fit;
  counted = h.counted;
}
got-IsWithin n i s (some (r, rest)) h at =
    move-IsWithin n i s _ free (holding r) h at refl refl refl

picked {ℓ} :
    {A : Type ℓ} (b c : Bool) (x y t : A)
    → (if b then none else (if c then some x else some y)) ≡ some t
    → (t ≡ x) ⊎ (t ≡ y)
picked true c x y t e = cc
picked false true x y t e = inl (sym (some-injective _ _ e))
picked false false x y t e = inr (sym (some-injective _ _ e))

taken-IsWithin :
    (n i : ℕ) (s : Sessions) (t : Option Runnable × ThreadPool)
    → IsWithin n s
    → get_elem? s.pool.threads i ≡ some free
    → get_session s.running s.pool ≡ some t
    → IsWithin n (got i s t)
unfolding get_session get_by found
taken-IsWithin n i s t h at e = elim (picked _ _ _ _ t e) [
  | inl same ↦ subst (λ t. IsWithin n (got i s t)) (sym same) (got-IsWithin n i s none h at)
  | inr same ↦ subst (λ t. IsWithin n (got i s t)) (sym same) (got-IsWithin n i s _ h at)
]

round-IsWithin :
    (n i : ℕ) (s t : Sessions) (stopped : Bool) (o : Option (Option Runnable × ThreadPool))
    → IsWithin n s
    → IsWithin n t
    → ((u : Option Runnable × ThreadPool) → o ≡ some u → IsWithin n (got i s u))
    → IsWithin n (if stopped then t else elim o [ none ↦ s | some u ↦ got i s u ])
round-IsWithin n i s t true o h k g = k
round-IsWithin n i s t false none h k g = h
round-IsWithin n i s t false (some u) h k g = g u refl

take_up-IsWithin :
    (n i : ℕ) (s : Sessions)
    → IsWithin n s
    → get_elem? s.pool.threads i ≡ some free
    → IsWithin n (take_up i s)
unfolding take_up
take_up-IsWithin n i s h at =
    round-IsWithin n i s _ s.pool.stopped (get_session s.running s.pool) h
      (move-IsWithin n i s _ free ended h at refl refl refl) (λ t. taken-IsWithin n i s t h at)

work-IsWithin :
    (n i : ℕ) (s : Sessions)
    → IsWithin n s
    → (o : Option Worker) → get_elem? s.pool.threads i ≡ o
    → IsWithin n (work i o s)
unfolding work start_run end_run count_running uncount_running finally
work-IsWithin n i s h (some free) at = take_up-IsWithin n i s h at
work-IsWithin n i s h (some (holding r)) at =
    move-IsWithin n i s _ (holding r) (busy r) h at refl refl (omega arith)
work-IsWithin n i s h (some (busy r)) at =
    move-IsWithin n i s _ (busy r) free h at refl refl
      (omega (arith, h.counted, number_inside-set s.pool.threads i (busy r) free at))
work-IsWithin n i s h (some ended) at = h
work-IsWithin n i s h none at = h

pool_step-IsWithin :
    (n : ℕ) (s : Sessions) (m : PoolMove) → IsWithin n s → IsWithin n (pool_step m s)
unfolding pool_step push_session
pool_step-IsWithin n s (calculate r) h = calculate_status-IsWithin n r s h
pool_step-IsWithin n s (enqueue r) h = record {
  same_size = h.same_size;
  threads_fit = h.threads_fit;
  counted = h.counted;
}
pool_step-IsWithin n s (work_on i) h = work-IsWithin n i s h (get_elem? s.pool.threads i) refl
pool_step-IsWithin n s stop_pool h = record {
  same_size = h.same_size;
  threads_fit = h.threads_fit;
  counted = h.counted;
}

pub Served-IsWithin : (n : ℕ) (s : Sessions) → Served n s → IsWithin n s
Served-IsWithin n s at_first = record {
  same_size = refl;
  threads_fit = omega arith;
  counted = refl;
}
Served-IsWithin n s (then_move {s = t} m before) =
    pool_step-IsWithin n t m (Served-IsWithin n t before)

-- However runnables come and threads work, a pool of a given size has no more threads, and no
-- more runnables are inside their run.
pub threads-max_size :
    (n : ℕ) (s : Sessions)
    → Served n s
    → (length s.pool.threads ≤ n) × (s.running.number_running_total ≤ n)
threads-max_size n s r =
    let h = Served-IsWithin n s r in
    (h.threads_fit, omega (arith, h.threads_fit, h.counted, number_inside_le s.pool.threads))
