-- ===== src/Utils/WorkPool.antt =====
-- pkg/utils/workpool.go: a pool of at most so many workers, which take tasks from a channel.
pub mod Tasks
use meshach.Prelude.{
  ℕ, zero, suc, ◌-◌, ◌≡◌, Bool, Option, none, some, List, [], ◌∷◌, ◌++◌, if◌then◌else◌, ltb, In,
}

-- `sem` counts the values in that channel, whose capacity is `size`. A worker runs a task (`busy`), receives
-- from `work` (`idle`), or has panicked and is about to take its value out of `sem` (`leaving`). `alone`
-- are the tasks that goroutines of their own run. `between` are the tasks of the calls of ScheduleAuto that
-- have passed the first select. `ended` are the tasks that have returned or panicked.
pub record WorkerPool (T : Type 0) : Type 0 where
  pub size : ℕ
  pub sem : ℕ
  pub idle : ℕ
  pub busy : List T
  pub leaving : ℕ
  pub alone : List T
  pub between : List T
  pub ended : List T

-- NewWorkerPool
unfoldable pub new_worker_pool : {T : Type 0} → ℕ → WorkerPool T
new_worker_pool size = record {
  size = size;
  sem = 0;
  idle = 0;
  busy = [];
  leaving = 0;
  alone = [];
  between = [];
  ended = [];
}

abbrev pub ready : {A : Type 0} → Option A → List A
ready none = []
ready (some x) = x ∷ []

-- The `default` of a select is taken where no other case is ready.
abbrev pub or_default : {A : Type 0} → List A → A → List A
or_default [] d = d ∷ []
or_default (x ∷ xs) d = x ∷ xs

module _ {T : Type 0} where
  hand_to : ℕ → T → WorkerPool T → Option (WorkerPool T)
  hand_to zero task p = none
  hand_to (suc n) task p = some (record p { idle = n; busy = task ∷ p.busy })

  -- `p.work <- task`: the channel has no buffer, so that an idle worker must take the task.
  unfoldable pub send : T → WorkerPool T → Option (WorkerPool T)
  unfolding hand_to
  send task p = hand_to p.idle task p

  -- `p.sem <- struct{}{}` and `go p.spawnWorker(task)`
  unfoldable pub spawn : T → WorkerPool T → Option (WorkerPool T)
  spawn task p =
      if ltb p.sem p.size then some (record p { sem = suc p.sem; busy = task ∷ p.busy }) else none

  -- GoWithRecover
  unfoldable pub go_with_recover : T → WorkerPool T → WorkerPool T
  go_with_recover task p = record p { alone = task ∷ p.alone }

  -- Schedule. A select takes any case that is ready: this lists what may come of it; the caller waits while
  -- there is nothing.
  unfoldable pub schedule : T → WorkerPool T → List (WorkerPool T)
  unfolding send spawn
  schedule task p = ready (send task p) ++ ready (spawn task p)

  -- ScheduleAlways
  unfoldable pub schedule_always : T → WorkerPool T → List (WorkerPool T)
  unfolding schedule go_with_recover
  schedule_always task p = or_default (schedule task p) (go_with_recover task p)

  -- The first select of ScheduleAuto. The second one is that of ScheduleAlways.
  unfoldable pub schedule_auto : T → WorkerPool T → List (WorkerPool T)
  unfolding send
  schedule_auto task p = or_default (ready (send task p)) (record p { between = task ∷ p.between })

  -- The loop of spawnWorker, behind a task that returns
  unfoldable pub on_return : List T → T → List T → WorkerPool T → WorkerPool T
  on_return before task after p = record p {
    busy = before ++ after;
    idle = suc p.idle;
    ended = task ∷ p.ended;
  }

  -- The deferred function of spawnWorker, up to the receive
  unfoldable pub on_panic : List T → T → List T → WorkerPool T → WorkerPool T
  on_panic before task after p = record p {
    busy = before ++ after;
    leaving = suc p.leaving;
    ended = task ∷ p.ended;
  }

  -- `<-p.sem`
  unfoldable pub release : ℕ → WorkerPool T → WorkerPool T
  release left p = record p { leaving = left; sem = p.sem - 1 }

  -- A step of a caller or of a goroutine, with the tasks that a caller hands over in it
  pub data Step (p : WorkerPool T) : List T → WorkerPool T → Type 0 where
    schedules : (t : T) {next : WorkerPool T} → In next (schedule t p) → Step p (t ∷ []) next
    always : (t : T) {next : WorkerPool T} → In next (schedule_always t p) → Step p (t ∷ []) next
    auto : (t : T) {next : WorkerPool T} → In next (schedule_auto t p) → Step p (t ∷ []) next
    second_select :
        (before : List T) (t : T) (after : List T) {next : WorkerPool T}
        → p.between ≡ before ++ t ∷ after
        → In next (schedule_always t (record p { between = before ++ after }))
        → Step p [] next
    worker_returns :
        (before : List T) (t : T) (after : List T)
        → p.busy ≡ before ++ t ∷ after
        → Step p [] (on_return before t after p)
    worker_panics :
        (before : List T) (t : T) (after : List T)
        → p.busy ≡ before ++ t ∷ after
        → Step p [] (on_panic before t after p)
    worker_leaves : (left : ℕ) → p.leaving ≡ suc left → Step p [] (release left p)
    alone_ends :
        (before : List T) (t : T) (after : List T)
        → p.alone ≡ before ++ t ∷ after
        → Step p [] (record p { alone = before ++ after; ended = t ∷ p.ended })

  -- The states that a pool comes to, with the tasks that it was handed, the last one first
  pub data Reach (size : ℕ) : List T → WorkerPool T → Type 0 where
    start : Reach size [] (new_worker_pool size)
    later :
        {given tasks : List T} {p next : WorkerPool T}
        → Reach size tasks p
        → Step p given next
        → Reach size (given ++ tasks) next
