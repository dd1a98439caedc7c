-- ===== src/Adapter/Debounce/Pending.antt =====
-- A request that has been put does not stay behind.
use meshach.Prelude.{
  ℕ, ◌+◌, ◌-◌, ◌≤◌, ◌≡◌, ◌⊎◌, inl, inr, refl, true, false, ◌||◌, Option, none, some, List, [], ◌∷◌,
  ◌++◌, arith, ◌==◌, if◌then◌else◌, is_some, length, length-append,
}
use meshach.Adapter.Debounce.{
  Debounce, new, put_request, push_pending, push_worker, on_free, on_timer, pushed, Step, put,
  free_received, timer_fired, push_returned, Reach, start, later,
}

module _ {R : Type 0} (merge : R → R → R) (wait_time max_wait_time : ℕ) where
  -- Between two steps: as many pushes are on their way as the flag `free` says, the count of requests tells
  -- whether one waits, and where one waits a timer is set or a push is on its way.
  pub record Inv (d : Debounce R) : Type 0 where
    pub one_push : length d.pushing + d.free_ch ≡ (if d.free then 0 else 1)
    pub counted : (d.debounce_events == 0) ≡ (if is_some d.req then false else true)
    pub awaited :
        is_some d.req ≡ true → (is_some d.time_chan || (if d.free then false else true)) ≡ true

  new-Inv : Inv new
  unfolding new
  new-Inv = ground arith

  put-Inv :
      (now : ℕ) (r : R) (d : Debounce R)
      → Inv d
      → Inv (put_request merge wait_time max_wait_time now r d)
  unfolding put_request
  put-Inv now r d v = ground arith

  push_pending-Inv :
      (o : Option R) (d : Debounce R)
      → d.req ≡ o
      → d.free ≡ true
      → length d.pushing + d.free_ch ≡ 0
      → (d.debounce_events == 0) ≡ (if is_some o then false else true)
      → Inv (push_pending merge wait_time max_wait_time o d)
  unfolding push_pending
  push_pending-Inv none d e f one counted = ground arith
  push_pending-Inv (some r) d e f one counted = ground (arith, length-append d.pushing (r ∷ []))

  -- The worker pushes what waits, or sets the timer again.
  push_worker-Inv :
      (now : ℕ) (d : Debounce R)
      → d.free ≡ true
      → length d.pushing + d.free_ch ≡ 0
      → (d.debounce_events == 0) ≡ (if is_some d.req then false else true)
      → Inv (push_worker merge wait_time max_wait_time now d)
  unfolding push_worker
  push_worker-Inv now d f one counted = ground (arith, push_pending-Inv d.req d refl f one counted)

  on_free-Inv :
      (now : ℕ) (d : Debounce R)
      → 1 ≤ d.free_ch
      → Inv d
      → Inv (on_free merge wait_time max_wait_time now d)
  unfolding on_free
  on_free-Inv now d h v =
      push_worker-Inv now (record d { free = true; free_ch = d.free_ch - 1 }) refl (ground arith)
        v.counted

  on_timer-Inv :
      (now : ℕ) (d : Debounce R) → Inv d → Inv (on_timer merge wait_time max_wait_time now d)
  unfolding on_timer
  on_timer-Inv now d v = ground (arith, push_worker-Inv now (record d { time_chan = none }))

  pushed-Inv :
      (before after : List R) (r : R) (d : Debounce R)
      → d.pushing ≡ before ++ r ∷ after
      → Inv d
      → Inv (pushed merge wait_time max_wait_time before after d)
  unfolding pushed
  pushed-Inv before after r d e v =
      ground (arith, length-append before (r ∷ after), length-append before after)

  Step-Inv : {d next : Debounce R} → Step merge wait_time max_wait_time d next → Inv d → Inv next
  Step-Inv {d} (put now r) v = put-Inv now r d v
  Step-Inv {d} (free_received now h) v = on_free-Inv now d h v
  Step-Inv {d} (timer_fired now t e h) v = on_timer-Inv now d v
  Step-Inv {d} (push_returned before after r e) v = pushed-Inv before after r d e v

  Reach-Inv : {d : Debounce R} → Reach merge wait_time max_wait_time d → Inv d
  Reach-Inv start = new-Inv
  Reach-Inv (later r step) = Step-Inv step (Reach-Inv r)

  -- In every state that the debouncer comes to, pushFn runs at most once at a time; and where a request
  -- waits, the timer is set, or a push runs or has just ended, so that the request comes to be looked at
  -- again.
  pub Reach-awaited :
      {d : Debounce R}
      → Reach merge wait_time max_wait_time d
      → (length d.pushing ≤ 1)
        × ((r : R)
            → d.req ≡ some r
            → ((t : ℕ) × (d.time_chan ≡ some t)) ⊎ (length d.pushing + d.free_ch ≡ 1))
  Reach-awaited {d} r =
      let v = Reach-Inv r in (ground (arith, v.one_push), λ q e. waits v q e d.time_chan refl)
    where
      waits :
          Inv d
          → (q : R) → d.req ≡ some q
          → (o : Option ℕ) → d.time_chan ≡ o
          → ((t : ℕ) × (d.time_chan ≡ some t)) ⊎ (length d.pushing + d.free_ch ≡ 1)
      waits v q e none n = inr (ground arith)
      waits v q e (some t) n = inl (t, n)
