-- ===== src/ThreadPool/Defs.antt =====
-- The pool of common/ThreadPoolBase.cpp and ThreadPoolSessions.cpp. A thread of the pool is a state
-- of its loop; a move is what one thread does between two accesses to shared state.
use client_server.Base.{
  ℕ, zero, suc, ◌-◌, List, [], ◌∷◌, ◌++◌, Bool, ◌&&◌, not, Option, none, some, if◌then◌else◌, ltb,
  leb, ◌==◌, length,
}
use client_server.Header.{Status}

-- What a pool sees of a `Runnable`. `kind` stands for its class.
pub record Runnable : Type 0 where
  pub kind : ℕ
  pub max_number_running_by_type : ℕ
  pub stopped : Bool
  pub status : Status

-- The static counters of `Runnable` and of the classes made from `RunnableT`.
pub record Running : Type 0 where
  pub number_running_by_type : ℕ → ℕ
  pub number_running_total : ℕ

-- A thread of `createThread`: at the call of `get`; with a runnable that it has taken; inside the
-- runnable's `run`, counted; or at its end.
pub data Worker : Type 0 where
  free : Worker
  holding : Runnable → Worker
  busy : Runnable → Worker
  ended : Worker

pub record ThreadPool : Type 0 where
  pub max_size : ℕ
  pub threads : List Worker
  pub queue : List Runnable
  pub total_number_objects : ℕ
  pub stopped : Bool

unfoldable pub pool_size : ThreadPool → ℕ
pool_size p = length p.threads

unfoldable pub create_thread : ThreadPool → ThreadPool
create_thread p = record p { threads = p.threads ++ (free ∷ []) }

unfoldable pub add_object : ThreadPool → ThreadPool
add_object p = record p { total_number_objects = suc p.total_number_objects }

-- The destructor of `Finally`.
unfoldable pub finally : ThreadPool → ThreadPool
finally p = record p { total_number_objects = p.total_number_objects - 1 }

unfoldable pub can_run_one_more : Running → Runnable → Bool
can_run_one_more running r =
    ltb (running.number_running_by_type r.kind) r.max_number_running_by_type

unfoldable pub needs_thread : Running → Runnable → ThreadPool → Bool
unfolding pool_size can_run_one_more
needs_thread running r p =
    ltb (pool_size p) p.total_number_objects
    && (can_run_one_more running r && ltb (pool_size p) p.max_size)

-- The status that `calculateStatus` gives to a runnable for which no thread is made.
unfoldable pub status_by_number : Running → Runnable → ThreadPool → Status
unfolding can_run_one_more
status_by_number running r p =
    if not (can_run_one_more running r)
    then Status.max_objects_of_type
    else (if leb p.max_size running.number_running_total
        then Status.max_total_objects
        else r.status)

unfoldable pub calculate_status : Running → Runnable → ThreadPool → Runnable × ThreadPool
unfolding needs_thread status_by_number create_thread add_object
calculate_status running r p =
    let q = add_object p in
    if needs_thread running r q
    then (r, create_thread q)
    else (record r { status = status_by_number running r q }, q)

unfoldable pub push_session : Runnable → ThreadPool → Status × ThreadPool
push_session r p = (r.status, record p { queue = p.queue ++ (r ∷ []) })

unfoldable pub needs_base_thread : ThreadPool → Bool
unfolding pool_size
needs_base_thread p = ltb (pool_size p) p.total_number_objects

unfoldable pub push_base : Runnable → ThreadPool → Status × ThreadPool
unfolding needs_base_thread create_thread add_object
push_base r p =
    let q = add_object p in
    let room = if needs_base_thread q then create_thread q else q in
    if leb p.max_size (length p.threads)
    then (Status.max_total_objects, p)
    else (Status.none, record room { queue = p.queue ++ (r ∷ []) })

-- The loop over the queue: the first runnable that may run, and the others.
unfoldable pub take_first : (Runnable → Bool) → List Runnable → Option (Runnable × List Runnable)
take_first may [] = none
take_first may (r ∷ rs) =
    let later = take_first may rs in
    if may r then some (r, rs) else elim later [ none ↦ none | some (x, xs) ↦ some (x, r ∷ xs) ]

unfoldable pub may_run_session : Running → Runnable → Bool
unfolding can_run_one_more
may_run_session running r = can_run_one_more running r && not r.stopped

unfoldable pub may_run_base : ThreadPool → Runnable → Bool
may_run_base p r = not r.stopped && ltb p.total_number_objects p.max_size

abbrev waits : ThreadPool → Bool
waits p = not p.stopped && (length p.queue == 0)

-- A `get` that does not wait any more: the runnable, if there is one, and the pool behind it.
unfoldable pub found : Option (Runnable × List Runnable) → ThreadPool → Option Runnable × ThreadPool
found none p = (none, p)
found (some (r, rest)) p = (some r, record p { queue = rest })

unfoldable pub get_by : (Runnable → Bool) → ThreadPool → Option (Option Runnable × ThreadPool)
unfolding found
get_by may p =
    if waits p
    then none
    else (if p.stopped then some (none, p) else some (found (take_first may p.queue) p))

-- `get` of the two pools; `none` where the call waits.
unfoldable pub get_session : Running → ThreadPool → Option (Option Runnable × ThreadPool)
unfolding get_by may_run_session
get_session running p = get_by (may_run_session running) p

unfoldable pub get_base : ThreadPool → Option (Option Runnable × ThreadPool)
unfolding get_by may_run_base
get_base p = get_by (may_run_base p) p

-- `CountRunning`.
unfoldable pub count_running : Runnable → Running → Running
count_running r running = record {
  number_running_by_type = λ k.
      if k == r.kind
      then suc (running.number_running_by_type k)
      else running.number_running_by_type k;
  number_running_total = suc running.number_running_total;
}

unfoldable pub uncount_running : Runnable → Running → Running
uncount_running r running = record {
  number_running_by_type = λ k.
      if k == r.kind
      then running.number_running_by_type k - 1
      else running.number_running_by_type k;
  number_running_total = running.number_running_total - 1;
}

-- The handles of `stop`: of another thread, which ends or never does, of the thread that calls it,
-- and a detached one.
pub data Handle : Type 0 where
  other_thread endless_thread this_thread detached : Handle

-- The loop of `stop`, on fuel: the handles that are left, `none` where it has not ended; `join`
-- waits as long as the other thread runs. The iterator stands at the first handle always, as it moves by `erase` alone.
unfoldable pub join_threads : ℕ → List Handle → Option (List Handle)
join_threads fuel [] = some []
join_threads zero (h ∷ handles) = none
join_threads (suc fuel) (other_thread ∷ handles) = join_threads fuel handles
join_threads (suc fuel) (endless_thread ∷ handles) = join_threads fuel (endless_thread ∷ handles)
join_threads (suc fuel) (this_thread ∷ handles) = join_threads fuel (detached ∷ handles)
join_threads (suc fuel) (detached ∷ handles) = join_threads fuel (detached ∷ handles)
