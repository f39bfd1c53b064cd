-- ===== src/Tests/Pools.antt =====
-- The thread pools at concrete inputs.
use client_server.Base.{
  ℕ, ◌≤◌, [], ◌∷◌, Option, some, false, length, ◌≡◌, refl, arith, if◌then◌else◌, ◌==◌,
}
use client_server.Header.{Status}
use client_server.ThreadPool.{
  Runnable, Running, ThreadPool, Handle, other_thread, this_thread, join_threads, get_session,
  Sessions, fresh_sessions, Served, at_first, then_move, calculate, enqueue, work_on, pool_step,
}
use client_server.ThreadPool.Queue.{IsTaken, get_session-IsTaken}
use client_server.ThreadPool.Capacity.{threads-max_size}
use client_server.ThreadPool.Stopping.{IsEnding, join_threads_ends}

abbrev session_of : ℕ → Runnable
session_of kind = record {
  kind = kind;
  max_number_running_by_type = 1;
  stopped = false;
  status = Status.none;
}

-- One runnable of type 0 runs.
abbrev one_runs : Running
one_runs = record {
  number_running_by_type = λ k. if k == 0 then 1 else 0;
  number_running_total = 1;
}

abbrev two_wait : ThreadPool
two_wait = record {
  max_size = 2;
  threads = [];
  queue = session_of 0 ∷ session_of 1 ∷ [];
  total_number_objects = 3;
  stopped = false;
}

get_session-IsTaken_example :
    (taken : Option Runnable × ThreadPool) × (get_session one_runs two_wait ≡ some taken)
    × IsTaken one_runs two_wait taken
get_session-IsTaken_example = get_session-IsTaken one_runs two_wait refl (omega arith)

abbrev one_served : Sessions
one_served = pool_step (work_on 0) (
    pool_step (work_on 0) (
      pool_step (enqueue (session_of 0)) (pool_step (calculate (session_of 0)) (fresh_sessions 2))))

threads-max_size_example :
    (length one_served.pool.threads ≤ 2) × (one_served.running.number_running_total ≤ 2)
threads-max_size_example = threads-max_size 2 one_served (
    then_move (work_on 0) (
      then_move (work_on 0)
        (then_move (enqueue (session_of 0)) (then_move (calculate (session_of 0)) at_first))))

-- The one thread is inside the runnable's run.
one_served_runs : one_served.running.number_running_total ≡ 1
unfolding pool_step client_server.ThreadPool.calculate_status client_server.ThreadPool.push_session
    get_session client_server.ThreadPool.take_first client_server.ThreadPool.count_running
one_served_runs = refl

join_threads_ends_example : IsEnding (other_thread ∷ this_thread ∷ [])
join_threads_ends_example = join_threads_ends (other_thread ∷ this_thread ∷ [])
