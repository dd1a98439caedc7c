-- ===== src/ConfiguredServices/Workloads/Handled.antt =====
-- What one round, or several rounds, of the loop of reconcileWorkloadEntry have done to the listed entries
-- and to the map of found entries.
use meshach.Prelude.{
  ◌≡◌, ◌⊎◌, inl, inr, sym, ◌∙◌, Bool, true, false, ◌||◌, Option, none, some, is_some, arith, Text,
  Dict, lookup,
}
use meshach.Istio.{WorkloadEntry}

-- The entries that pass the test are listed and off the map; for other names nothing has changed.
abbrev pub Handled :
    {S : Type 0}
    → (S → Text → Option WorkloadEntry)
    → (Text → Bool)
    → (found left : Dict WorkloadEntry) → (s s' : S) → Type 0
Handled contents here found left s s' =
    (n : Text)
    → (here n ≡ true) × (is_some (contents s' n) ≡ true) × (lookup n left ≡ none)
      ⊎ (here n ≡ false) × (contents s' n ≡ contents s n) × (lookup n left ≡ lookup n found)

pub Handled-join :
    {S : Type 0} (contents : S → Text → Option WorkloadEntry) (one others : Text → Bool)
    (found m left : Dict WorkloadEntry) (s t s' : S)
    → Handled contents one found m s t
    → Handled contents others m left t s'
    → Handled contents (λ n. one n || others n) found left s s'
Handled-join contents one others found m left s t s' f g n = elim (g n) [
  | inl (here, listed, off) ↦ inl (ground arith, listed, off)
  | inr (apart, same, kept) ↦ elim (f n) [
    | inl (here, listed, off) ↦ inl (ground arith, rw same listed, kept ∙ off)
    | inr (not_here, before, held) ↦ inr (ground arith, same ∙ before, kept ∙ held)
  ]
]

pub Handled-seen :
    {S : Type 0} (contents : S → Text → Option WorkloadEntry) (here : Text → Bool)
    (found left : Dict WorkloadEntry) (s s' : S)
    → Handled contents here found left s s'
    → ((n : Text) (o : WorkloadEntry) → lookup n found ≡ some o → contents s n ≡ some o)
    → (n : Text) (o : WorkloadEntry) → lookup n left ≡ some o
    → contents s' n ≡ some o
Handled-seen contents here found left s s' handled seen n o l = elim (handled n) [
  | inl (_, _, off) ↦ cc (off, l)
  | inr (_, same, held) ↦ same ∙ seen n o (sym held ∙ l)
]
