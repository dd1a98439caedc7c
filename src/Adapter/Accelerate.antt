-- ===== src/Adapter/Accelerate.antt =====
-- pkg/adapter/accelerate/accelerator.go: tasks that are spread over channels by the hash of a key, with
-- one goroutine that works off each channel.
pub mod Exclusive
use Prim.Native.Nat.{bit_xor}
use meshach.Prelude.{
  ℕ, zero, suc, ◌+◌, ◌*◌, ◌%◌, ◌≡◌, Option, none, some, List, [], ◌∷◌, ◌++◌, if◌then◌else◌, ◌==◌,
  Text, mod32, get_elem?,
}

fnv_from : ℕ → Text → ℕ
fnv_from h [] = h
fnv_from h (b ∷ s) = fnv_from (bit_xor h b * 16777619 % mod32) s

-- FNV32a, with the hash of package hash/fnv written out
unfoldable pub fnv32a : Text → ℕ
unfolding fnv_from
fnv32a text = fnv_from 2166136261 text

-- `int(hashcode) % ac.size`: an int has 64 bits, so the hash code stays as it is.
unfoldable pub channel_of : ℕ → Text → ℕ
unfolding fnv32a
channel_of size hash_key = fnv32a hash_key % size

-- A call of Accelerate: its key, its task, and the channel that it has chosen
pub record Request (T : Type 0) : Type 0 where
  pub hash_key : Text
  pub fn : T
  pub channel : ℕ

-- `goroutines` has the task that the goroutine of each channel runs. A request that waits to be sent has a
-- goroutine of its own. `callers` are the calls that run their task themselves. A size below 0 does what
-- the size 0 does.
pub record Accelerator (T : Type 0) : Type 0 where
  pub size : ℕ
  pub goroutines : List (Option (Request T))
  pub waiting : List (Request T)
  pub callers : List (Text × T)

abbrev idle_goroutines : {T : Type 0} → ℕ → List (Option (Request T))
idle_goroutines zero = []
idle_goroutines (suc n) = none ∷ idle_goroutines n

-- NewAccelerator
unfoldable pub new_accelerator : {T : Type 0} → ℕ → Accelerator T
new_accelerator size = record {
  size = size;
  goroutines = idle_goroutines size;
  waiting = [];
  callers = [];
}

-- The goroutine of a channel takes up a request or has done with it.
unfoldable pub set_goroutine :
    {T : Type 0} → ℕ → Option (Request T) → List (Option (Request T)) → List (Option (Request T))
set_goroutine n r [] = []
set_goroutine zero r (g ∷ goroutines) = r ∷ goroutines
set_goroutine (suc n) r (g ∷ goroutines) = g ∷ set_goroutine n r goroutines

module _ {T : Type 0} where
  -- Accelerate, by several callers at a time where its size is 0
  unfoldable pub accelerate : T → Text → Accelerator T → Accelerator T
  unfolding channel_of
  accelerate fn hash_key ac =
      if ac.size == 0 then record ac { callers = (hash_key, fn) ∷ ac.callers } else record ac {
        waiting =
            record { hash_key = hash_key; fn = fn; channel = channel_of ac.size hash_key }
            ∷ ac.waiting;
      }

  -- The order in which the goroutines send and receive is left open. A goroutine receives from its own
  -- channel, and only once its task has returned.
  pub data Step (ac : Accelerator T) : Accelerator T → Type 0 where
    put : (fn : T) (hash_key : Text) → Step ac (accelerate fn hash_key ac)
    caller_returns :
        (before : List (Text × T)) (c : Text × T) (after : List (Text × T))
        → ac.callers ≡ before ++ c ∷ after
        → Step ac (record ac { callers = before ++ after })
    take_up :
        (before : List (Request T)) (r : Request T) (after : List (Request T))
        → ac.waiting ≡ before ++ r ∷ after
        → get_elem? ac.goroutines r.channel ≡ some none
        → Step ac (record ac {
          waiting = before ++ after;
          goroutines = set_goroutine r.channel (some r) ac.goroutines;
        })
    finish :
        (n : ℕ) (r : Request T)
        → get_elem? ac.goroutines n ≡ some (some r)
        → Step ac (record ac { goroutines = set_goroutine n none ac.goroutines })

  pub data Reach (size : ℕ) : Accelerator T → Type 0 where
    start : Reach size (new_accelerator size)
    later : {ac next : Accelerator T} → Reach size ac → Step ac next → Reach size next
