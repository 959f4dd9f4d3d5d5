-- ===== src/Bacs/Workers/Lifetime.antt =====
-- The lives of bacs::io_worker and bacs::io_worker_pool, up to their destructors.
use re_bacs_env.Prelude.{
  ℕ, zero, suc, ◌≡◌, ◌⊎◌, inl, inr, refl, ap, Bool, true, some, List, [], ◌∷◌, length, get_elem?,
  set, replicate, arith,
}
use re_bacs_env.Bacs.Workers.{
  IoContext, Thread, running, finished, not_a_thread, Joined, returned, waits, system_error, join,
  destroyed, terminates, in_destructor, IoWorker, move_worker, run_worker, destroy_worker,
  IoWorkerPool, io_worker_pool, join_all, destroy_pool, joined_worker,
}

-- Threads that stand for one.
abbrev AreThreads : List Thread → Type 0
AreThreads [] = Unit {0}
AreThreads (running ∷ ts) = AreThreads ts
AreThreads (finished ∷ ts) = AreThreads ts
AreThreads (not_a_thread ∷ ts) = ⊥

replicate-AreThreads : (n : ℕ) → AreThreads (replicate n running)
replicate-AreThreads zero = tt
replicate-AreThreads (suc n) = replicate-AreThreads n

set-AreThreads : (ts : List Thread) (i : ℕ) → AreThreads ts → AreThreads (set ts i finished)
set-AreThreads [] i h = tt
set-AreThreads (running ∷ ts) zero h = h
set-AreThreads (finished ∷ ts) zero h = h
set-AreThreads (not_a_thread ∷ ts) zero h = absurd h
set-AreThreads (running ∷ ts) (suc i) h = set-AreThreads ts i h
set-AreThreads (finished ∷ ts) (suc i) h = set-AreThreads ts i h
set-AreThreads (not_a_thread ∷ ts) (suc i) h = h

join_all-returned :
    (ts : List Thread)
    → AreThreads ts
    → join_all true ts ≡ returned (replicate (length ts) not_a_thread)
unfolding join_all
join_all-returned [] h = refl
join_all-returned (running ∷ ts) h = rw (join_all-returned ts h)
join_all-returned (finished ∷ ts) h = rw (join_all-returned ts h)
join_all-returned (not_a_thread ∷ ts) h = absurd h

joins :
    (t : Thread)
    → (t ≡ running) ⊎ (t ≡ finished)
    → in_destructor (join true t) ≡ destroyed not_a_thread
unfolding join
joins running h = refl
joins finished h = refl
joins not_a_thread h = elim h [ inl e ↦ cc | inr e ↦ cc ]

join-not_a_thread : (b : Bool) (t t' : Thread) → join b t ≡ returned t' → t' ≡ not_a_thread
unfolding join
join-not_a_thread b running t' h = ground arith
join-not_a_thread b finished t' h = cc
join-not_a_thread b not_a_thread t' h = cc

joined_worker-returned :
    (r : Joined Thread) (w : IoWorker)
    → joined_worker r ≡ returned w
    → (t : Thread) × (r ≡ returned t) × (w.worker ≡ t)
joined_worker-returned (returned t) w h = (t, refl, cc (ap {A = Joined IoWorker} worker_of h))
  where
    worker_of : Joined IoWorker → Thread
    worker_of (returned v) = v.worker
    worker_of waits = not_a_thread
    worker_of system_error = not_a_thread
joined_worker-returned waits w h = cc
joined_worker-returned system_error w h = cc

module _ (io : IoContext) where
  open io use {Context, stop, returns, stop-returns}

  -- What happens to a pool and its context: `run` returns in one of the threads, or somebody stops
  -- the context.
  pub data Life : Context → IoWorkerPool → Type 0 where
    constructed :
        (context : Context) (num_threads : ℕ) → Life context (io_worker_pool io context num_threads)
    run_returns :
        {context : Context} {pool : IoWorkerPool} (i : ℕ)
        → get_elem? pool.workers i ≡ some running
        → Life context pool
        → Life context (record { workers = set pool.workers i finished })
    stops : {context : Context} {pool : IoWorkerPool} → Life context pool → Life (stop context) pool

  Life-AreThreads :
      {context : Context} {pool : IoWorkerPool} → Life context pool → AreThreads pool.workers
  unfolding io_worker_pool
  Life-AreThreads (constructed context n) = replicate-AreThreads n
  Life-AreThreads (run_returns {pool = pool} i e l) =
      set-AreThreads pool.workers i (Life-AreThreads l)
  Life-AreThreads (stops l) = Life-AreThreads l

  -- At any point of a pool's life its destructor returns: it stops the context and has joined every
  -- thread.
  pub destroy_pool-joins :
      {context : Context} {pool : IoWorkerPool}
      → Life context pool
      → destroy_pool io context pool
        ≡ (stop context, destroyed (replicate (length pool.workers) not_a_thread))
  unfolding destroy_pool
  destroy_pool-joins {context = context} {pool = pool} l =
      rw (stop-returns context, join_all-returned pool.workers (Life-AreThreads l))

  -- The destructor of a worker returns if the worker's thread was neither joined nor moved away, also
  -- if the context has work without end: then the context is stopped and the thread joined. For a
  -- worker whose `run` has returned, or that was moved from, the destructor ends the program.
  pub destroy_worker-once :
      (context later : Context) (w u u' : IoWorker)
      → (w.worker ≡ running) ⊎ (w.worker ≡ finished)
      → run_worker io context u ≡ returned u'
      → (destroy_worker io context w ≡ (stop context, destroyed not_a_thread))
        × ((destroy_worker io later u').1 ≡ terminates)
        × ((destroy_worker io later (move_worker w).1).1 ≡ terminates)
  unfolding destroy_worker run_worker move_worker join
  destroy_worker-once context later w u u' alive r =
      let (t, joined, same) = joined_worker-returned (join (returns context) u.worker) u' r in
      (
        rw (stop-returns context) (ap (λ d. (stop context, d)) (joins w.worker alive)),
        again (join-not_a_thread (returns context) u.worker t joined) same,
        refl,
      )
    where
      again :
          {t : Thread}
          → t ≡ not_a_thread
          → u'.worker ≡ t
          → in_destructor (join (returns (stop later)) u'.worker) ≡ terminates
      again e same = rw (same, e) refl
