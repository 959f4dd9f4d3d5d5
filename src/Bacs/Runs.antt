-- ===== src/Bacs/Runs.antt =====
-- The framing theorems on a socket between two byte lists.
use re_bacs_env.Prelude.{ℕ, suc, ◌≡◌, refl, arith, Bool, true, false, not, List, [], ◌∷◌, ok, inl}
use re_bacs_env.Plakpacs.Platform.LittleEndian.{little_endian}
use re_bacs_env.Bacs.Asio.{ErrorCode, success, failure, failed}
use re_bacs_env.Bacs.Asio.Buffers.{Buffers, buffers, write_buffer}
use re_bacs_env.Bacs.{sp_default, memory, async_write_sp, async_read_sp}
use re_bacs_env.Bacs.WideElements.{short_frame, async_write_sp-short}
use re_bacs_env.Bacs.Framing.{sent, sp_default-AreInverse, frame, async_read_sp-frame}
use re_bacs_env.Bacs.Loops.{StopsOnError}
use re_bacs_env.Bacs.Workers.{
  IoContext, running, finished, not_a_thread, destroyed, terminates, IoWorker, IoWorkerPool,
  move_worker, run_worker, io_worker_pool, destroy_worker, destroy_pool, join,
}
use re_bacs_env.Bacs.Workers.Lifetime.{
  Life, constructed, run_returns, destroy_pool-joins, destroy_worker-once,
}

abbrev quiet : Buffers
quiet = record { sent = 1 ∷ []; to_read = [] }

abbrev one_frame : Buffers
one_frame = record { sent = []; to_read = 2 ∷ 0 ∷ 0 ∷ 0 ∷ 104 ∷ 105 ∷ 9 ∷ [] }

abbrev two_frames : Buffers
two_frames = record { sent = []; to_read = 1 ∷ 0 ∷ 0 ∷ 0 ∷ 104 ∷ 2 ∷ 0 ∷ 0 ∷ 0 ∷ 105 ∷ 33 ∷ 9 ∷ [] }

-- Keeps the messages, the last one first, and stops at an error.
abbrev collect : List (List ℕ) → ErrorCode → ℕ → List ℕ → List (List ℕ) × Bool
collect st ec count buffer = (buffer ∷ st, not (failed ec))

collect-StopsOnError : StopsOnError little_endian buffers collect
unfolding failed
collect-StopsOnError st (failure n) count buffer h = refl
collect-StopsOnError st success count buffer h = cc

abbrev arrived : ErrorCode → ℕ → List ℕ → Buffers → ErrorCode × List ℕ
arrived ec count buffer w = (ec, buffer)

abbrev count_calls : ℕ → ErrorCode → ℕ
count_calls n ec = suc n

async_read_sp-frame_example :
    (w' : Buffers) × (async_read_sp little_endian sp_default buffers arrived one_frame
      ≡ ok (success, 104 ∷ 105 ∷ []))
    × (buffers.incoming w' ≡ 9 ∷ [])
unfolding frame little_endian sp_default
async_read_sp-frame_example =
    async_read_sp-frame little_endian sp_default buffers (104 ∷ 105 ∷ []) (9 ∷ []) arrived one_frame
      sp_default-AreInverse (omega arith) refl

-- What is sent of the 32-bit numbers 7 and 8, alone and with the next frame behind.
abbrev seven_eight : List ℕ
seven_eight = 7 ∷ 8 ∷ []

abbrev alone : Buffers
alone = record { sent = []; to_read = 8 ∷ 0 ∷ 0 ∷ 0 ∷ 7 ∷ 0 ∷ [] }

abbrev followed : Buffers
followed = record { sent = []; to_read = 8 ∷ 0 ∷ 0 ∷ 0 ∷ 7 ∷ 0 ∷ 1 ∷ 0 ∷ 0 ∷ 0 ∷ 9 ∷ 5 ∷ 4 ∷ [] }

async_write_sp-short_example :
    (buffers.written
        (async_write_sp little_endian sp_default buffers 4 seven_eight
          (sent little_endian sp_default buffers)
          quiet).1
      ≡ 1 ∷ short_frame little_endian sp_default 4 seven_eight)
    × ((ec : ErrorCode) × (count : ℕ) × (buffer : List ℕ) × (u' : Buffers) × (async_read_sp
            little_endian sp_default buffers arrived alone
          ≡ ok (arrived ec count buffer u'))
        × (failed ec ≡ true))
    × ((v' : Buffers) × (async_read_sp little_endian sp_default buffers arrived followed
          ≡ ok (arrived success 8 (7 ∷ 0 ∷ 1 ∷ 0 ∷ 0 ∷ 0 ∷ 9 ∷ 5 ∷ []) v'))
        × (buffers.incoming v' ≡ 4 ∷ []))
unfolding little_endian sp_default memory async_write_sp write_buffer
async_write_sp-short_example =
    async_write_sp-short little_endian sp_default buffers buffers 4 seven_eight []
      (1 ∷ 0 ∷ 0 ∷ 0 ∷ 9 ∷ 5 ∷ []) (4 ∷ []) quiet alone followed arrived sp_default-AreInverse
      (omega arith) (omega arith) refl refl (omega arith) refl refl

-- An io_context with work that never ends, by whether it was stopped.
abbrev busy_context : IoContext
busy_context = record {
  Context = Bool;
  stop = λ stopped. true;
  returns = λ stopped. stopped;
  stop-returns = λ stopped. refl;
}

-- Two threads, of which the second one has left `run`.
abbrev half_done : IoWorkerPool
half_done = record { workers = running ∷ finished ∷ [] }

half_done-Life : Life busy_context false half_done
unfolding io_worker_pool
half_done-Life = run_returns 1 refl (constructed false 2)

destroy_pool-joins_example :
    destroy_pool busy_context false half_done ≡ (true, destroyed (not_a_thread ∷ not_a_thread ∷ []))
destroy_pool-joins_example = destroy_pool-joins busy_context half_done-Life

-- A worker that is at work, one whose `run` has returned, and that behind its `run`.
abbrev at_work : IoWorker
at_work = record { worker = running }

abbrev idle : IoWorker
idle = record { worker = finished }

abbrev joined : IoWorker
joined = record { worker = not_a_thread }

destroy_worker-once_example :
    (destroy_worker busy_context false at_work ≡ (true, destroyed not_a_thread))
    × ((destroy_worker busy_context false joined).1 ≡ terminates)
    × ((destroy_worker busy_context false (move_worker at_work).1).1 ≡ terminates)
destroy_worker-once_example =
    destroy_worker-once busy_context false false at_work idle joined (inl refl)
      (unfold run_worker join in refl)
