-- ===== src/Adapter/Debounce/Batches.antt =====
-- Every request is pushed once, merged with its neighbours.
use mathlib.Core.List.{map-append, append_assoc, append-nil}
use meshach.Prelude.{
  ℕ, ◌-◌, ◌≤◌, ◌≡◌, ◌⊎◌, inl, inr, refl, sym, ◌∙◌, Bool, true, false, ◌||◌, Option, none, some,
  List, [], ◌∷◌, ◌++◌, map, leb, if◌then◌else◌, Bool-cases,
}
use meshach.Adapter.Debounce.{
  Debounce, new, merged, put_request, push_pending, push_worker, on_free, on_timer, pushed,
}

module _ {R : Type 0} (merge : R → R → R) (wait_time max_wait_time : ℕ) where
  -- The requests that have been put, and those that have been handed to pushFn, in their order
  pub data Trace : List R → List R → Debounce R → Type 0 where
    begin : Trace [] [] new
    requested :
        {puts pushes : List R} {d : Debounce R} (now : ℕ) (r : R)
        → Trace puts pushes d
        → Trace (puts ++ r ∷ []) pushes (put_request merge wait_time max_wait_time now r d)
    freed :
        {puts pushes : List R} {d : Debounce R} (now : ℕ) (handed : List R)
        → 1 ≤ d.free_ch
        → (on_free merge wait_time max_wait_time now d).pushing ≡ d.pushing ++ handed
        → Trace puts pushes d
        → Trace puts (pushes ++ handed) (on_free merge wait_time max_wait_time now d)
    timed :
        {puts pushes : List R} {d : Debounce R} (now t : ℕ) (handed : List R)
        → d.time_chan ≡ some t
        → t ≤ now
        → (on_timer merge wait_time max_wait_time now d).pushing ≡ d.pushing ++ handed
        → Trace puts pushes d
        → Trace puts (pushes ++ handed) (on_timer merge wait_time max_wait_time now d)
    returned :
        {puts pushes : List R} {d : Debounce R} (before after : List R) (r : R)
        → d.pushing ≡ before ++ r ∷ after
        → Trace puts pushes d
        → Trace puts pushes (pushed merge wait_time max_wait_time before after d)

  -- The merge of a batch, from its first request on
  abbrev pub merge_all : R → List R → R
  merge_all r [] = r
  merge_all r (q ∷ qs) = merge_all (merge r q) qs

  abbrev pub batch_merge : R × List R → R
  batch_merge b = merge_all b.0 b.1

  abbrev pub requests : List (R × List R) → List R
  requests [] = []
  requests ((r, rs) ∷ batches) = r ∷ (rs ++ requests batches)

  abbrev pub merge_rest : List R → Option R
  merge_rest [] = none
  merge_rest (r ∷ rs) = some (merge_all r rs)

  -- The requests that were put are batches, whose merges have been pushed in their order, and the rest,
  -- whose merge waits.
  abbrev pub Accounted : List R → List R → Debounce R → Type 0
  Accounted puts pushes d =
      (batches : List (R × List R)) × (rest : List R) × (pushes ≡ map batch_merge batches)
      × (puts ≡ requests batches ++ rest)
      × (d.req ≡ merge_rest rest)

  merge_all-snoc :
      (r : R) (rs : List R) (q : R) → merge_all r (rs ++ q ∷ []) ≡ merge (merge_all r rs) q
  merge_all-snoc r [] q = refl
  merge_all-snoc r (x ∷ rs) q = merge_all-snoc (merge r x) rs q

  merge_rest-snoc :
      (rest : List R) (q : R)
      → some (merged merge (merge_rest rest) q) ≡ merge_rest (rest ++ q ∷ [])
  unfolding merged
  merge_rest-snoc [] q = refl
  merge_rest-snoc (r ∷ rs) q = rw (merge_all-snoc r rs q)

  requests-snoc :
      (batches : List (R × List R)) (r : R) (rs : List R)
      → requests (batches ++ (r, rs) ∷ []) ≡ requests batches ++ r ∷ rs
  requests-snoc [] r rs = rw (append-nil rs)
  requests-snoc ((q, qs) ∷ batches) r rs =
      rw (requests-snoc batches r rs, append_assoc qs (requests batches) (r ∷ rs))

  same_front : (xs ys zs : List R) → xs ++ ys ≡ xs ++ zs → ys ≡ zs
  same_front [] ys zs e = e
  same_front (x ∷ xs) ys zs e = same_front xs ys zs (cc e)

  -- What a look at the pending request does
  abbrev Looked : Debounce R → Debounce R → Type 0
  Looked d next =
      ((next.req ≡ d.req) × (next.pushing ≡ d.pushing))
      ⊎ ((r : R) × (d.req ≡ some r) × (next.req ≡ none) × (next.pushing ≡ d.pushing ++ r ∷ []))

  push_pending-Looked :
      (o : Option R) (d : Debounce R)
      → d.req ≡ o
      → Looked d (push_pending merge wait_time max_wait_time o d)
  unfolding push_pending
  push_pending-Looked none d e = inl (refl, refl)
  push_pending-Looked (some r) d e = inr (r, e, refl, refl)

  push_worker-Looked :
      (now : ℕ) (d : Debounce R) → Looked d (push_worker merge wait_time max_wait_time now d)
  unfolding push_worker
  push_worker-Looked now d =
      elim (Bool-cases
        (leb wait_time (now - d.last_update_time) || leb max_wait_time (now - d.start_time))) [
          | inl due ↦ rw due (push_pending-Looked d.req d refl)
          | inr early ↦ rw early (inl (refl, refl))
        ]

  on_timer-Looked :
      (now : ℕ) (d : Debounce R) → Looked d (on_timer merge wait_time max_wait_time now d)
  unfolding on_timer
  on_timer-Looked now d = timed_look d.free
    where
      timed_look :
          (b : Bool)
          → Looked d (
              if b
              then push_worker merge wait_time max_wait_time now (record d { time_chan = none })
              else record d { time_chan = none })
      timed_look true = push_worker-Looked now (record d { time_chan = none })
      timed_look false = inl (refl, refl)

  taken_rest :
      (puts pushes : List R) (batches : List (R × List R)) (rest : List R) (r : R)
      (next : Debounce R)
      → pushes ≡ map batch_merge batches
      → puts ≡ requests batches ++ rest
      → some r ≡ merge_rest rest
      → next.req ≡ none
      → Accounted puts (pushes ++ r ∷ []) next
  taken_rest puts pushes batches [] r next p q m n = cc m
  taken_rest puts pushes batches (x ∷ xs) r next p q m n =
      let own : r ≡ merge_all x xs = cc m in
      (
        batches ++ (x, xs) ∷ [],
        [],
        rw (p, own, map-append batch_merge batches ((x, xs) ∷ [])),
        q ∙ rw (requests-snoc batches x xs, append-nil (requests batches ++ x ∷ xs)),
        n,
      )

  Looked-Accounted :
      {puts pushes : List R} (d next : Debounce R) (handed : List R)
      → Looked d next
      → next.pushing ≡ d.pushing ++ handed
      → Accounted puts pushes d
      → Accounted puts (pushes ++ handed) next
  Looked-Accounted {puts} {pushes} d next handed (inl (same, idle)) e (batches, rest, p, q, m) =
      let nothing : handed ≡ [] =
        same_front d.pushing handed [] (sym e ∙ idle ∙ sym (append-nil d.pushing)) in
      (batches, rest, rw (nothing, append-nil pushes) p, q, same ∙ m)
  Looked-Accounted {puts} {pushes} d next handed (inr (r, there, gone, grown)) e
        (batches, rest, p, q, m) =
      let one : handed ≡ r ∷ [] = same_front d.pushing handed (r ∷ []) (sym e ∙ grown) in
      rw one (taken_rest puts pushes batches rest r next p q (sym there ∙ m) gone)

  -- However the requests, the timer and the pushes are interleaved, no request is lost, pushed twice or out
  -- of turn: what was put is a row of batches, each pushed merged and in order, and the rest, which waits
  -- merged.
  pub Trace-Accounted :
      {puts pushes : List R} {d : Debounce R} → Trace puts pushes d → Accounted puts pushes d
  unfolding put_request on_free pushed
  Trace-Accounted begin = ([], [], refl, refl, unfold new in refl)
  Trace-Accounted (requested {puts} {pushes} {d} now r t) =
      let (batches, rest, p, q, m) = Trace-Accounted t in
      (
        batches,
        rest ++ r ∷ [],
        p,
        rw (q, append_assoc (requests batches) rest (r ∷ [])),
        rw m (merge_rest-snoc rest r),
      )
  Trace-Accounted (freed {d = d} now handed h e t) =
      Looked-Accounted d (on_free merge wait_time max_wait_time now d) handed
        (push_worker-Looked now (record d { free = true; free_ch = d.free_ch - 1 })) e
        (Trace-Accounted t)
  Trace-Accounted (timed {d = d} now at_time handed c h e t) =
      Looked-Accounted d (on_timer merge wait_time max_wait_time now d) handed
        (on_timer-Looked now d) e (Trace-Accounted t)
  Trace-Accounted (returned before after r e t) = Trace-Accounted t
