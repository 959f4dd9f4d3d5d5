-- ===== src/Bacs/Workers.antt =====
-- bacs::io_worker and bacs::io_worker_pool: threads that run an io_context.
pub mod Lifetime
use re_bacs_env.Prelude.{ℕ, ◌≡◌, Bool, true, List, [], ◌∷◌, if◌then◌else◌, replicate}

-- The template argument IOContext: boost's io_context, from which the code takes `run` and `stop`.
-- `returns` says that every call of `run` returns; before `stop` it may not.
pub record IoContext : Type 1 where
  pub Context : Type 0
  pub stop : Context → Context
  pub returns : Context → Bool
  pub stop-returns : (context : Context) → returns (stop context) ≡ true

-- A std::thread object: it stands for a thread inside `run`, for one whose `run` has returned, or,
-- when it was joined or moved from, for none.
pub data Thread : Type 0 where
  running finished not_a_thread : Thread

-- How a call on a thread ends: it returns, it waits for a thread that is not going to end, or it
-- throws std::system_error.
pub data Joined {ℓ} (A : Type ℓ) : Type ℓ where
  returned : A → Joined A
  waits : Joined A
  system_error : Joined A

-- std::thread::join, where `returns` says that `run` is going to return.
unfoldable pub join : Bool → Thread → Joined Thread
join returns finished = returned not_a_thread
join returns not_a_thread = system_error
join returns running = if returns then returned not_a_thread else waits

-- An exception that leaves a destructor ends the program.
pub data Destroyed {ℓ} (A : Type ℓ) : Type ℓ where
  destroyed : A → Destroyed A
  hangs terminates : Destroyed A

abbrev pub in_destructor {ℓ} : {A : Type ℓ} → Joined A → Destroyed A
in_destructor (returned a) = destroyed a
in_destructor waits = hangs
in_destructor system_error = terminates

pub record IoWorker : Type 0 where
  pub worker : Thread

-- The move constructor: the new worker and the old one.
unfoldable pub move_worker : IoWorker → IoWorker × IoWorker
move_worker w = (record { worker = w.worker }, record { worker = not_a_thread })

abbrev pub joined_worker : Joined Thread → Joined IoWorker
joined_worker (returned t) = returned (record { worker = t })
joined_worker waits = waits
joined_worker system_error = system_error

pub record IoWorkerPool : Type 0 where
  pub workers : List Thread

unfoldable pub move_pool : IoWorkerPool → IoWorkerPool × IoWorkerPool
move_pool pool = (record { workers = pool.workers }, record { workers = [] })

abbrev pub and_then {ℓ κ} : {A : Type ℓ} {B : Type κ} → Joined A → (A → Joined B) → Joined B
and_then (returned a) f = f a
and_then waits f = waits
and_then system_error f = system_error

-- The destructor's loop over the threads of a pool.
unfoldable pub join_all : Bool → List Thread → Joined (List Thread)
unfolding join
join_all returns [] = returned []
join_all returns (t ∷ workers) =
    and_then (join returns t)
      λ t'. and_then (join_all returns workers) λ workers'. returned (t' ∷ workers')

module _ (io : IoContext) where
  open io use {Context, stop, returns}

  unfoldable pub io_worker : Context → IoWorker
  io_worker context = record { worker = running }

  -- `run` of the worker waits for the thread.
  unfoldable pub run_worker : Context → IoWorker → Joined IoWorker
  unfolding join
  run_worker context w = joined_worker (join (returns context) w.worker)

  -- The destructor: the context behind it, and how it ends.
  unfoldable pub destroy_worker : Context → IoWorker → Context × Destroyed Thread
  unfolding join
  destroy_worker context w =
      let context' = stop context in (context', in_destructor (join (returns context') w.worker))

  unfoldable pub io_worker_pool : Context → ℕ → IoWorkerPool
  io_worker_pool context num_threads = record { workers = replicate num_threads running }

  unfoldable pub destroy_pool : Context → IoWorkerPool → Context × Destroyed (List Thread)
  unfolding join_all
  destroy_pool context pool =
      let context' = stop context in
      (context', in_destructor (join_all (returns context') pool.workers))
