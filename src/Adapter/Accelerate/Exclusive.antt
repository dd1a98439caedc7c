-- ===== src/Adapter/Accelerate/Exclusive.antt =====
-- Which tasks of an accelerator run at a time, and which channels its requests are sent to.
use native.Mathlib.Nat.{mod-lt}
use meshach.Prelude.{
  ℕ, zero, suc, ◌<◌, ◌≡◌, ◌⊎◌, inl, inr, refl, sym, ap, ◌∙◌, Option, none, some, List, [], ◌∷◌,
  ◌++◌, arith, ◌==◌, Bool-cases, length, get_elem?, Text, All,
}
use meshach.Adapter.Accelerate.{
  channel_of, fnv32a, Request, Accelerator, idle_goroutines, new_accelerator, set_goroutine,
  accelerate, Step, put, caller_returns, take_up, finish, Reach, start, later,
}

in_range : {A : Type 0} (i : ℕ) (xs : List A) → i < length xs → (x : A) × (get_elem? xs i ≡ some x)
in_range i [] h = absurd (omega (arith, h))
in_range zero (x ∷ xs) h = (x, refl)
in_range (suc i) (x ∷ xs) h = in_range i xs (omega arith)

not_empty : {A : Type 0} (before : List A) (c : A) (after : List A) → before ++ c ∷ after ≡ [] → ⊥
not_empty [] c after e = cc e
not_empty (x ∷ before) c after e = cc e

length-idle : (T : Type 0) (n : ℕ) → length (idle_goroutines {T = T} n) ≡ n
length-idle T zero = refl
length-idle T (suc n) = omega (arith, length-idle T n)

module _ {T : Type 0} where
  idle_runs_nothing :
      (n i : ℕ) (r : Request T) → get_elem? (idle_goroutines n) i ≡ some (some r) → ⊥
  idle_runs_nothing zero i r h = cc h
  idle_runs_nothing (suc n) zero r h = cc h
  idle_runs_nothing (suc n) (suc i) r h = idle_runs_nothing n i r h

  length-set_goroutine :
      (n : ℕ) (o : Option (Request T)) (gs : List (Option (Request T)))
      → length (set_goroutine n o gs) ≡ length gs
  unfolding set_goroutine
  length-set_goroutine n o [] = refl
  length-set_goroutine zero o (g ∷ gs) = refl
  length-set_goroutine (suc n) o (g ∷ gs) = omega (arith, length-set_goroutine n o gs)

  -- A task that runs afterwards was taken up, or ran before.
  got_set :
      (n : ℕ) (o : Option (Request T)) (gs : List (Option (Request T))) (i : ℕ) (r : Request T)
      → get_elem? (set_goroutine n o gs) i ≡ some (some r)
      → ((i ≡ n) × (o ≡ some r)) ⊎ (get_elem? gs i ≡ some (some r))
  unfolding set_goroutine
  got_set n o [] i r h = cc h
  got_set zero o (g ∷ gs) zero r h = inl (refl, cc h)
  got_set zero o (g ∷ gs) (suc i) r h = inr h
  got_set (suc n) o (g ∷ gs) zero r h = inr h
  got_set (suc n) o (g ∷ gs) (suc i) r h = elim (got_set n o gs i r h) [
    | inl (e, q) ↦ inl (ap (λ k. suc k) e, q)
    | inr q ↦ inr q
  ]

  All-drop :
      (P : Request T → Type 0) (before : List (Request T)) (r : Request T)
      (after : List (Request T))
      → All P (before ++ r ∷ after)
      → P r × All P (before ++ after)
  All-drop P [] r after h = h
  All-drop P (x ∷ before) r after h =
      let (p, rest) = All-drop P before r after h.1 in (p, (h.0, rest))

  -- Requests go to the channel of their key, and every goroutine runs a task of its own channel.
  record Inv (size : ℕ) (ac : Accelerator T) : Type 0 where
    sized : ac.size ≡ size
    channels : length ac.goroutines ≡ size
    sent : All (λ r. r.channel ≡ channel_of size r.hash_key) ac.waiting
    own :
        (i : ℕ) (r : Request T)
        → get_elem? ac.goroutines i ≡ some (some r)
        → channel_of size r.hash_key ≡ i
    no_caller : 0 < size → ac.callers ≡ []

  module _ (size : ℕ) where
    own_key :
        (r q : Request T) {i : ℕ}
        → r ≡ q
        → r.channel ≡ channel_of size r.hash_key
        → i ≡ r.channel
        → channel_of size q.hash_key ≡ i
    own_key r q same mine at_r =
        ap (λ (x : Request T). channel_of size x.hash_key) (sym same) ∙ sym (at_r ∙ mine)

    accelerate-Inv :
        (fn : T) (key : Text) (ac : Accelerator T) → Inv size ac → Inv size (accelerate fn key ac)
    unfolding accelerate
    accelerate-Inv fn key ac v = elim (Bool-cases (ac.size == 0)) [
      | inl e ↦ rw e (record {
        sized = v.sized;
        channels = v.channels;
        sent = v.sent;
        own = v.own;
        no_caller = λ p. absurd (ground (arith, v.sized));
      })
      | inr e ↦ rw e (record {
        sized = v.sized;
        channels = v.channels;
        sent = (ap (λ n. channel_of n key) v.sized, v.sent);
        own = v.own;
        no_caller = v.no_caller;
      })
    ]

    Step-Inv : {ac next : Accelerator T} → Step ac next → Inv size ac → Inv size next
    Step-Inv {ac} (put fn key) v = accelerate-Inv fn key ac v
    Step-Inv {ac} (caller_returns before c after e) v = record {
      sized = v.sized;
      channels = v.channels;
      sent = v.sent;
      own = v.own;
      no_caller = λ p. absurd (not_empty before c after (sym e ∙ v.no_caller p));
    }
    Step-Inv {ac} (take_up before r after e idle) v =
        let (mine, rest) =
          All-drop (λ r. r.channel ≡ channel_of size r.hash_key) before r after (rw e at v.sent) in
        record {
          sized = v.sized;
          channels = rw (length-set_goroutine r.channel (some r) ac.goroutines) v.channels;
          sent = rest;
          own = λ i q got. elim (got_set r.channel (some r) ac.goroutines i q got) [
            | inl (at_r, same) ↦ own_key r q (cc same) mine at_r
            | inr old ↦ v.own i q old
          ];
          no_caller = v.no_caller;
        }
    Step-Inv {ac} (finish n r h) v = record {
      sized = v.sized;
      channels = rw (length-set_goroutine n none ac.goroutines) v.channels;
      sent = v.sent;
      own = λ i q got. elim (got_set n none ac.goroutines i q got) [
        | inl (at_n, same) ↦ cc same
        | inr old ↦ v.own i q old
      ];
      no_caller = v.no_caller;
    }

    Reach-Inv : {ac : Accelerator T} → Reach size ac → Inv size ac
    unfolding new_accelerator
    Reach-Inv start = record {
      sized = refl;
      channels = length-idle T size;
      sent = tt;
      own = λ i r h. absurd (idle_runs_nothing size i r h);
      no_caller = λ p. refl;
    }
    Reach-Inv (later r step) = Step-Inv step (Reach-Inv r)

  channel_exists :
      (size : ℕ) (ac : Accelerator T)
      → 0 < size
      → Inv size ac
      → (rs : List (Request T)) → All (λ r. r.channel ≡ channel_of size r.hash_key) rs
      → All (λ r. (o : Option (Request T)) × (get_elem? ac.goroutines r.channel ≡ some o)) rs
  unfolding channel_of
  channel_exists size ac p v [] h = tt
  channel_exists size ac p v (r ∷ rs) h = (
    in_range r.channel ac.goroutines (rw (h.0, v.channels) (mod-lt (fnv32a r.hash_key) p)),
    channel_exists size ac p v rs h.1,
  )

  -- Where the size is above 0, in every state that the accelerator comes to, whatever the order in which
  -- the goroutines take turns: two goroutines do not run tasks with the same key, no task runs outside the
  -- goroutines, and every request that waits is for a channel that exists.
  pub Reach-exclusive :
      {size : ℕ} {ac : Accelerator T}
      → 0 < size
      → Reach size ac
      → ((i j : ℕ) (r q : Request T)
          → get_elem? ac.goroutines i ≡ some (some r)
          → get_elem? ac.goroutines j ≡ some (some q)
          → r.hash_key ≡ q.hash_key
          → i ≡ j)
        × (ac.callers ≡ [])
        × All
            (λ r. (o : Option (Request T)) × (get_elem? ac.goroutines r.channel ≡ some o))
            ac.waiting
  Reach-exclusive {size} {ac} p reach =
      let v = Reach-Inv size reach in
      (
        λ i j r q at_i at_j same. sym (v.own i r at_i) ∙ ap (channel_of size) same ∙ v.own j q at_j,
        v.no_caller p,
        channel_exists size ac p v ac.waiting v.sent,
      )
