-- ===== src/Utils/WorkPool/Tasks.antt =====
-- What becomes of the tasks of a work pool, and how many workers it has.
use meshach.Prelude.{
  ℕ, zero, suc, ◌+◌, ◌≤◌, ◌≡◌, ◌↔◌, ◌⊎◌, ◌∙◌, refl, inl, inr, Bool, true, Option, none, some, List,
  [], ◌∷◌, ◌++◌, arith, if◌then◌else◌, length, In,
}
use meshach.Utils.WorkPool.{
  WorkerPool, new_worker_pool, ready, or_default, send, spawn, go_with_recover, hand_to, schedule,
  schedule_always, schedule_auto, on_return, on_panic, release, Step, schedules, always, auto,
  second_select, worker_returns, worker_panics, worker_leaves, alone_ends, Reach, start, later,
}

In-parts : {A : Type 0} (x : A) (xs ys : List A) → In x (xs ++ ys) → In x xs ⊎ In x ys
In-parts x [] ys m = inr m
In-parts x (y ∷ xs) ys (inl e) = inl (inl e)
In-parts x (y ∷ xs) ys (inr m) = elim (In-parts x xs ys m) [ inl a ↦ inl (inr a) | inr b ↦ inr b ]

module _ {T : Type 0} where
  abbrev pub score : (T → Bool) → T → ℕ
  score test t = if test t then 1 else 0

  -- How many of the tasks pass the test
  abbrev pub count : (T → Bool) → List T → ℕ
  count test [] = 0
  count test (t ∷ ts) = score test t + count test ts

  count-split :
      (test : T → Bool) (before : List T) (t : T) (after : List T)
      → count test (before ++ t ∷ after) ≡ score test t + count test (before ++ after)
  count-split test [] t after = refl
  count-split test (x ∷ before) t after = omega (arith, count-split test before t after)

  length-split :
      (before : List T) (t : T) (after : List T)
      → length (before ++ t ∷ after) ≡ suc (length (before ++ after))
  length-split [] t after = refl
  length-split (x ∷ before) t after = omega (arith, length-split before t after)

  count-append :
      (test : T → Bool) (xs ys : List T) → count test (xs ++ ys) ≡ count test xs + count test ys
  count-append test [] ys = omega arith
  count-append test (x ∷ xs) ys = omega (arith, count-append test xs ys)

  -- The tasks of the pool that pass the test, wherever they stand
  abbrev pub held : (T → Bool) → WorkerPool T → ℕ
  held test p = count test p.busy + count test p.alone + count test p.between + count test p.ended

  -- A worker has a value in `sem`, and the pool holds `n` tasks that pass the test.
  record Inv (size : ℕ) (test : T → Bool) (n : ℕ) (p : WorkerPool T) : Type 0 where
    capacity : p.size ≡ size
    worker_values : p.sem ≡ p.idle + length p.busy + p.leaving
    bounded : p.sem ≤ p.size
    accounted : n ≡ held test p

  module _ (size : ℕ) (test : T → Bool) where
    hand_to-Inv :
        (n k : ℕ) (t : T) (p next : WorkerPool T)
        → p.idle ≡ k
        → Inv size test n p
        → hand_to k t p ≡ some next
        → Inv size test (score test t + n) next
    unfolding hand_to
    hand_to-Inv n zero t p next i v e = cc e
    hand_to-Inv n (suc k) t p next i v e = ground arith

    send-Inv :
        (n : ℕ) (t : T) (p next : WorkerPool T)
        → Inv size test n p
        → send t p ≡ some next
        → Inv size test (score test t + n) next
    unfolding send
    send-Inv n t p next v e = hand_to-Inv n p.idle t p next refl v e

    spawn-Inv :
        (n : ℕ) (t : T) (p next : WorkerPool T)
        → Inv size test n p
        → spawn t p ≡ some next
        → Inv size test (score test t + n) next
    unfolding spawn
    spawn-Inv n t p next v e = ground arith

    recounted : (n m : ℕ) (p : WorkerPool T) → n ≡ m → Inv size test m p → Inv size test n p
    recounted n m p e v = rw e v

    ready-Inv :
        (n : ℕ) (o : Option (WorkerPool T)) (next : WorkerPool T)
        → ((q : WorkerPool T) → o ≡ some q → Inv size test n q)
        → In next (ready o)
        → Inv size test n next
    ready-Inv n none next h m = absurd m
    ready-Inv n (some q) next h (inl e) = h next (cc e)
    ready-Inv n (some q) next h (inr m) = absurd m

    schedule-Inv :
        (n : ℕ) (t : T) (p next : WorkerPool T)
        → Inv size test n p
        → In next (schedule t p)
        → Inv size test (score test t + n) next
    unfolding schedule
    schedule-Inv n t p next v m = elim (In-parts next (ready (send t p)) (ready (spawn t p)) m) [
      | inl a ↦ ready-Inv (score test t + n) (send t p) next (λ q e. send-Inv n t p q v e) a
      | inr b ↦ ready-Inv (score test t + n) (spawn t p) next (λ q e. spawn-Inv n t p q v e) b
    ]

    default-Inv :
        (n : ℕ) (qs : List (WorkerPool T)) (d next : WorkerPool T)
        → (In next qs → Inv size test n next)
        → Inv size test n d
        → In next (or_default qs d)
        → Inv size test n next
    default-Inv n [] d next h v (inl e) = rw e v
    default-Inv n [] d next h v (inr m) = absurd m
    default-Inv n (q ∷ qs) d next h v m = h m

    schedule_always-Inv :
        (n : ℕ) (t : T) (p next : WorkerPool T)
        → Inv size test n p
        → In next (schedule_always t p)
        → Inv size test (score test t + n) next
    unfolding schedule_always go_with_recover
    schedule_always-Inv n t p next v m =
        default-Inv (score test t + n) (schedule t p) (go_with_recover t p) next
          (schedule-Inv n t p next v) (ground arith) m

    schedule_auto-Inv :
        (n : ℕ) (t : T) (p next : WorkerPool T)
        → Inv size test n p
        → In next (schedule_auto t p)
        → Inv size test (score test t + n) next
    unfolding schedule_auto
    schedule_auto-Inv n t p next v m =
        default-Inv (score test t + n) (ready (send t p)) (record p { between = t ∷ p.between })
          next (ready-Inv (score test t + n) (send t p) next (λ q e. send-Inv n t p q v e))
          (ground arith) m

    -- Without one of the tasks that wait between the selects
    between-Inv :
        (n : ℕ) (before : List T) (t : T) (after : List T) (p : WorkerPool T)
        → p.between ≡ before ++ t ∷ after
        → Inv size test n p
        → (m : ℕ) × (n ≡ score test t + m)
          × Inv size test m (record p { between = before ++ after })
    between-Inv n before t after p e v = (
      held test (record p { between = before ++ after }),
      v.accounted ∙ rw e (omega (arith, count-split test before t after)),
      record {
        capacity = v.capacity;
        worker_values = v.worker_values;
        bounded = v.bounded;
        accounted = refl;
      },
    )

    Step-Inv :
        (n : ℕ) {given : List T} {p next : WorkerPool T}
        → Step p given next
        → Inv size test n p
        → Inv size test (count test given + n) next
    unfolding on_return on_panic release
    Step-Inv n {p} {next} (schedules t m) v =
        recounted (count test (t ∷ []) + n) (score test t + n) next (omega arith)
          (schedule-Inv n t p next v m)
    Step-Inv n {p} {next} (always t m) v =
        recounted (count test (t ∷ []) + n) (score test t + n) next (omega arith)
          (schedule_always-Inv n t p next v m)
    Step-Inv n {p} {next} (auto t m) v =
        recounted (count test (t ∷ []) + n) (score test t + n) next (omega arith)
          (schedule_auto-Inv n t p next v m)
    Step-Inv n {p} {next} (second_select before t after e m) v =
        let (k, same, w) = between-Inv n before t after p e v in
        recounted (0 + n) (score test t + k) next (omega (arith, same))
          (schedule_always-Inv k t (record p { between = before ++ after }) next w m)
    Step-Inv n {p} (worker_returns before t after e) v =
        ground (arith, count-split test before t after, length-split before t after)
    Step-Inv n {p} (worker_panics before t after e) v =
        ground (arith, count-split test before t after, length-split before t after)
    Step-Inv n {p} (worker_leaves left e) v = ground arith
    Step-Inv n {p} (alone_ends before t after e) v = ground (arith, count-split test before t after)

    Reach-Inv :
        {tasks : List T} {p : WorkerPool T}
        → Reach size tasks p
        → Inv size test (count test tasks) p
    unfolding new_worker_pool
    Reach-Inv start = ground arith
    Reach-Inv (later {given} {tasks} {p} {next} r step) =
        recounted (count test (given ++ tasks)) (count test given + count test tasks) next
          (count-append test given tasks) (Step-Inv (count test tasks) step (Reach-Inv r))

  -- Whatever the order of the steps, a pool has at most `size` workers, and each task that it was handed is
  -- run, waits between the selects of ScheduleAuto, or has ended, as often as it was handed over: none is
  -- lost, and none run twice.
  pub Reach-Accounted :
      {size : ℕ} {tasks : List T} {p : WorkerPool T}
      → Reach size tasks p
      → (p.idle + length p.busy + p.leaving ≤ size)
        × ((test : T → Bool) → count test tasks ≡ held test p)
  Reach-Accounted {size} r =
      let v = Reach-Inv size (λ t. true) r in
      (ground arith, λ test. (Reach-Inv size test r).accounted)

  waits_at :
      (size n k : ℕ) (t : T) (p : WorkerPool T)
      → p.idle ≡ k
      → Inv size (λ t. true) n p
      → (ready (hand_to k t p) ++ ready (spawn t p) ≡ []) ↔ (length p.busy + p.leaving ≡ size)
  unfolding spawn hand_to
  waits_at size n zero t p e v = ground arith
  waits_at size n (suc k) t p e v = ground arith

  -- Schedule has to wait exactly where the pool has its `size` workers and none is idle.
  pub schedule_waits :
      {size : ℕ} {tasks : List T} {p : WorkerPool T} (t : T)
      → Reach size tasks p
      → (schedule t p ≡ []) ↔ (length p.busy + p.leaving ≡ size)
  unfolding schedule send
  schedule_waits {size} {tasks} {p} t r =
      waits_at size (count (λ t. true) tasks) p.idle t p refl (Reach-Inv size (λ t. true) r)
