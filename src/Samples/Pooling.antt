-- ===== src/Samples/Pooling.antt =====
-- The theorems on the work pool at a pool of one worker.
use meshach.Prelude.{ℕ, ◌+◌, ◌≤◌, ◌≡◌, ◌↔◌, refl, inl, Bool, [], ◌∷◌, length}
use meshach.Utils.WorkPool.{
  WorkerPool, new_worker_pool, schedule, schedule_always, schedule_auto, on_panic, Reach, start,
  later, schedules, auto, second_select, worker_panics,
}
use meshach.Utils.WorkPool.Tasks.{count, held, Reach-Accounted, schedule_waits}

-- The worker runs task 1 while ScheduleAuto is between its selects with task 2.
abbrev auto_called : WorkerPool ℕ
auto_called = record (new_worker_pool 1) { sem = 1; busy = 1 ∷ []; between = 2 ∷ [] }

-- Task 2 runs in a goroutine of its own.
abbrev both_run : WorkerPool ℕ
both_run = record (new_worker_pool 1) { sem = 1; busy = 1 ∷ []; alone = 2 ∷ [] }

abbrev one_panics : WorkerPool ℕ
one_panics = on_panic [] 1 [] both_run

both_run-Reach : Reach 1 (2 ∷ 1 ∷ []) both_run
unfolding new_worker_pool schedule schedule_always schedule_auto
both_run-Reach =
    later (later (later start (schedules 1 (inl refl))) (auto 2 {next = auto_called} (inl refl)))
      (second_select [] 2 [] refl (inl refl))

Reach-Accounted_example :
    (one_panics.idle + length one_panics.busy + one_panics.leaving ≤ 1)
    × ((test : ℕ → Bool) → count test (2 ∷ 1 ∷ []) ≡ held test one_panics)
Reach-Accounted_example = Reach-Accounted (later both_run-Reach (worker_panics [] 1 [] refl))

schedule_waits_example : (schedule 3 both_run ≡ []) ↔ (length both_run.busy + both_run.leaving ≡ 1)
schedule_waits_example = schedule_waits 3 both_run-Reach
