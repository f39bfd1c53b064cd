-- ===== src/ThreadPool/Steps.antt =====
-- The pool of the sessions at work: what its threads and its callers do, one after the other.
use client_server.Base.{ℕ, [], true, false, Option, none, some, if◌then◌else◌, get_elem?, set}
use client_server.ThreadPool.Defs.{
  Runnable, Running, Worker, free, holding, busy, ended, ThreadPool, finally, calculate_status,
  push_session, get_session, count_running, uncount_running,
}

pub record Sessions : Type 0 where
  pub pool : ThreadPool
  pub running : Running

abbrev pub fresh_sessions : ℕ → Sessions
fresh_sessions max_size = record {
  pool = record {
    max_size = max_size;
    threads = [];
    queue = [];
    total_number_objects = 0;
    stopped = false;
  };
  running = record { number_running_by_type = λ k. 0; number_running_total = 0 };
}

abbrev with_thread : ℕ → Worker → ThreadPool → ThreadPool
with_thread i w p = record p { threads = set p.threads i w }

-- Behind `get`: a runnable is held, or the round of the loop ends with `Finally`.
unfoldable pub got : ℕ → Sessions → Option Runnable × ThreadPool → Sessions
got i s (none, q) = record s { pool = finally q }
got i s (some r, q) = record s { pool = with_thread i (holding r) q }

-- The first part of a round: the test of the loop and the call of `get`.
unfoldable pub take_up : ℕ → Sessions → Sessions
unfolding got
take_up i s =
    if s.pool.stopped
    then record s { pool = with_thread i ended s.pool }
    else elim (get_session s.running s.pool) [ none ↦ s | some t ↦ got i s t ]

-- `run` begins, which counts, and ends, in whatever way, with the end of the round.
unfoldable pub start_run : ℕ → Runnable → Sessions → Sessions
start_run i r s = record {
  pool = with_thread i (busy r) s.pool;
  running = count_running r s.running;
}

unfoldable pub end_run : ℕ → Runnable → Sessions → Sessions
end_run i r s = record {
  pool = finally (with_thread i free s.pool);
  running = uncount_running r s.running;
}

-- What thread `i` does next.
unfoldable pub work : ℕ → Option Worker → Sessions → Sessions
unfolding take_up start_run end_run
work i (some free) s = take_up i s
work i (some (holding r)) s = start_run i r s
work i (some (busy r)) s = end_run i r s
work i (some ended) s = s
work i none s = s

pub data PoolMove : Type 0 where
  calculate : Runnable → PoolMove
  enqueue : Runnable → PoolMove
  work_on : ℕ → PoolMove
  stop_pool : PoolMove

unfoldable pub pool_step : PoolMove → Sessions → Sessions
unfolding work
pool_step (calculate r) s = record s { pool = (calculate_status s.running r s.pool).1 }
pool_step (enqueue r) s = record s { pool = (push_session r s.pool).1 }
pool_step (work_on i) s = work i (get_elem? s.pool.threads i) s
pool_step stop_pool s = record s { pool = record s.pool { stopped = true } }

-- The states of a pool of the given size.
pub data Served (max_size : ℕ) : Sessions → Type 0 where
  at_first : Served max_size (fresh_sessions max_size)
  then_move : {s : Sessions} → (m : PoolMove) → Served max_size s → Served max_size (pool_step m s)
