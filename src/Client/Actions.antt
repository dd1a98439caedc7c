-- ===== src/Client/Actions.antt =====
-- Actions that change a state and return, fail or panic. What was written before a failure stays
-- written.
use meshach.Prelude.{Option, none, some}
use meshach.Client.{Error, Result, ok, err, Call}

pub data Outcome (A : Type 0) : Type 0 where
  done : A → Outcome A
  fail : Error → Outcome A
  panic : Outcome A

abbrev pub Action : Type 0 → Type 0 → Type 0
Action S A = S → Outcome A × S

module _ {S A : Type 0} where
  abbrev pub pure : A → Action S A
  pure a s = (done a, s)

  abbrev pub throw : Error → Action S A
  throw e s = (fail e, s)

  abbrev pub crash : Action S A
  crash s = (panic, s)

  -- A dereference of nil, or another computation that may panic.
  abbrev pub deref : Option A → Action S A
  deref none s = (panic, s)
  deref (some a) s = (done a, s)

  -- `v, err := call`, with the error left to the caller.
  abbrev pub try : Call S A → Action S (Result A)
  try call s = let (r, s') = call s in (done r, s')

  -- A read of the state.
  abbrev pub read : (S → A) → Action S A
  read f s = (done (f s), s)

  -- `if err != nil { return err }`
  abbrev pub check : Result A → Action S A
  check (ok a) = pure a
  check (err e) = throw e

module _ {S A B : Type 0} where
  abbrev pub and_then : Outcome A → (A → Action S B) → Action S B
  and_then (done a) f s = f a s
  and_then (fail e) f s = (fail e, s)
  and_then panic f s = (panic, s)

  infixl 5 ◌>>=◌ ◌>>◌
  abbrev pub ◌>>=◌ : Action S A → (A → Action S B) → Action S B
  ◌>>=◌ m f s = let (r, s') = m s in and_then r f s'

  abbrev pub ◌>>◌ : Action S A → Action S B → Action S B
  m >> n = m >>= λ _. n
