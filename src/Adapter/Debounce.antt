-- ===== src/Adapter/Debounce.antt =====
-- pkg/adapter/debounce/debounce.go: requests that come in quick succession are merged and pushed together.
pub mod Batches
pub mod Pending
use meshach.Prelude.{
  ℕ, zero, suc, ◌+◌, ◌-◌, ◌≤◌, ◌≡◌, Bool, true, false, ◌||◌, Option, none, some, List, [], ◌∷◌,
  ◌++◌, leb, ◌==◌, if◌then◌else◌,
}

-- The variables of `start`. `time_chan` is the time at which the timer fires, `none` where there is no
-- timer or it has fired; `pushing` are the requests in the hands of goroutines that run pushFn, and
-- `free_ch` counts the values in that channel. A count of 2^64 requests without a push is out of reach,
-- so `debounce_events` does not wrap.
pub record Debounce (R : Type 0) : Type 0 where
  pub time_chan : Option ℕ
  pub start_time : ℕ
  pub last_update_time : ℕ
  pub debounce_events : ℕ
  pub req : Option R
  pub free : Bool
  pub pushing : List R
  pub free_ch : ℕ

unfoldable pub new : {R : Type 0} → Debounce R
new = record {
  time_chan = none;
  start_time = 0;
  last_update_time = 0;
  debounce_events = 0;
  req = none;
  free = true;
  pushing = [];
  free_ch = 0;
}

-- `req = r`, or `req = req.Merge(r)`
unfoldable pub merged : {R : Type 0} → (R → R → R) → Option R → R → R
merged merge none r = r
merged merge (some req) r = merge req r

module _ {R : Type 0} (merge : R → R → R) (wait_time max_wait_time : ℕ) where
  unfoldable pub put_request : ℕ → R → Debounce R → Debounce R
  unfolding merged
  put_request now r d =
      let first = d.debounce_events == 0 in
      record d {
        last_update_time = now;
        time_chan = if first then some (now + wait_time) else d.time_chan;
        start_time = if first then now else d.start_time;
        debounce_events = d.debounce_events + 1;
        req = some (merged merge d.req r);
      }

  push_pending : Option R → Debounce R → Debounce R
  push_pending none d = d
  push_pending (some r) d = record d {
    free = false;
    pushing = d.pushing ++ r ∷ [];
    req = none;
    debounce_events = 0;
  }

  -- time.Since is never negative.
  unfoldable pub push_worker : ℕ → Debounce R → Debounce R
  unfolding push_pending
  push_worker now d =
      let last_update_duration = now - d.last_update_time in
      if leb wait_time last_update_duration || leb max_wait_time (now - d.start_time)
      then push_pending d.req d
      else record d { time_chan = some (now + (wait_time - last_update_duration)) }

  unfoldable pub on_free : ℕ → Debounce R → Debounce R
  unfolding push_worker
  on_free now d = push_worker now (record d { free = true; free_ch = d.free_ch - 1 })

  unfoldable pub on_timer : ℕ → Debounce R → Debounce R
  unfolding push_worker
  on_timer now d =
      let fired : Debounce R = record d { time_chan = none } in
      if d.free then push_worker now fired else fired

  -- pushFn has returned
  unfoldable pub pushed : List R → List R → Debounce R → Debounce R
  pushed before after d = record d { pushing = before ++ after; free_ch = d.free_ch + 1 }

  pub data Step (d : Debounce R) : Debounce R → Type 0 where
    put : (now : ℕ) (r : R) → Step d (put_request now r d)
    free_received : (now : ℕ) → 1 ≤ d.free_ch → Step d (on_free now d)
    timer_fired : (now t : ℕ) → d.time_chan ≡ some t → t ≤ now → Step d (on_timer now d)
    push_returned :
        (before after : List R) (r : R)
        → d.pushing ≡ before ++ r ∷ after
        → Step d (pushed before after d)

  pub data Reach : Debounce R → Type 0 where
    start : Reach new
    later : {d next : Debounce R} → Reach d → Step d next → Reach next
