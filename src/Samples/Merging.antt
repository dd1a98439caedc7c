-- ===== src/Samples/Merging.antt =====
-- The theorems on the debouncer and the accelerator at short runs.
use meshach.Prelude.{
  ℕ, ◌+◌, ◌≤◌, ◌≡◌, ◌⊎◌, refl, Option, none, some, [], get_elem?, All, ◌∷◌, ◌++◌, arith, length,
  bytes,
}
use meshach.Adapter.Debounce.{Debounce, new, put_request, on_timer, start, later, put}
use meshach.Adapter.Debounce.Pending.{Reach-awaited}
use meshach.Adapter.Debounce.Batches.{begin, requested, timed, Accounted, Trace-Accounted}
use meshach.Adapter.Accelerate
use meshach.Adapter.Accelerate.{Accelerator, channel_of, new_accelerator, set_goroutine, accelerate}
use meshach.Adapter.Accelerate.Exclusive.{Reach-exclusive}

abbrev sum : ℕ → ℕ → ℕ
sum a b = a + b

-- A debouncer of numbers with one request
abbrev one_waits : Debounce ℕ
one_waits = put_request sum 10 100 0 3 new

Reach-awaited_example :
    (length one_waits.pushing ≤ 1)
    × ((r : ℕ)
        → one_waits.req ≡ some r
        → ((t : ℕ) × (one_waits.time_chan ≡ some t))
          ⊎ (length one_waits.pushing + one_waits.free_ch ≡ 1))
Reach-awaited_example = Reach-awaited sum 10 100 (later start (put 0 3))

-- Two requests, and the timer at time 10
abbrev two_wait : Debounce ℕ
two_wait = put_request sum 10 100 1 4 one_waits

two_pushed : (on_timer sum 10 100 11 two_wait).pushing ≡ two_wait.pushing ++ 7 ∷ []
unfolding on_timer put_request new
two_pushed = refl

two_timed : two_wait.time_chan ≡ some 10
unfolding put_request new
two_timed = refl

Trace-Accounted_example :
    Accounted sum 10 100 (3 ∷ 4 ∷ []) (7 ∷ []) (on_timer sum 10 100 11 two_wait)
Trace-Accounted_example =
    Trace-Accounted sum 10 100 (
      timed 11 10 (7 ∷ []) two_timed (omega arith) two_pushed (requested 1 4 (requested 0 3 begin)))

-- A task that runs while another one with its key waits
abbrev demo_request : ℕ → Accelerate.Request ℕ
demo_request fn = record {
  hash_key = bytes "com.foo.Demo";
  fn = fn;
  channel = channel_of 2 (bytes "com.foo.Demo");
}

abbrev one_waits_for : Accelerator ℕ
one_waits_for = record (new_accelerator 2) {
  waiting = demo_request 1 ∷ [];
  goroutines = set_goroutine (demo_request 2).channel (some (demo_request 2)) (none ∷ none ∷ []);
}

one_waits_for-Reach : Accelerate.Reach 2 one_waits_for
unfolding new_accelerator accelerate channel_of
one_waits_for-Reach =
    Accelerate.later
      (Accelerate.later
        (Accelerate.later Accelerate.start (Accelerate.put 1 (bytes "com.foo.Demo")))
        (Accelerate.put 2 (bytes "com.foo.Demo")))
      (Accelerate.take_up [] (demo_request 2) (demo_request 1 ∷ []) refl refl)

Reach-exclusive_example :
    ((i j : ℕ) (r q : Accelerate.Request ℕ)
      → get_elem? one_waits_for.goroutines i ≡ some (some r)
      → get_elem? one_waits_for.goroutines j ≡ some (some q)
      → r.hash_key ≡ q.hash_key
      → i ≡ j)
    × (one_waits_for.callers ≡ [])
    × All
        (λ (r : Accelerate.Request ℕ).
          (o : Option (Accelerate.Request ℕ)) × (get_elem? one_waits_for.goroutines r.channel
            ≡ some o))
        one_waits_for.waiting
Reach-exclusive_example = Reach-exclusive (omega arith) one_waits_for-Reach
