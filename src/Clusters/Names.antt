-- ===== src/Clusters/Names.antt =====
-- How often the cluster manager lists a cluster of one name.
use meshach.Prelude.{
  ℕ, ◌+◌, ◌≤◌, ◌≡◌, refl, inl, inr, ◌∙◌, Bool, true, false, ◌||◌, Bool-cases, none, some, List, [],
  ◌∷◌, ◌++◌, arith, is_some, Text, bytes, text_eq, text_eq_iff, text_eq_refl, All,
}
use meshach.Utils.{format_to_dns1123}
use meshach.Adapter.Handler.{before}
use meshach.Clusters.{
  Cluster, ClusterManager, is_offline, find_named, if_online, get, insert_by_name, sort_by_name,
  add,
}

abbrev pub one_if : Bool → ℕ
one_if true = 1
one_if false = 0

abbrev pub count_named : Text → List Cluster → ℕ
count_named n [] = 0
count_named n (c ∷ clusters) = one_if (text_eq n c.name) + count_named n clusters

count-insert :
    (n : Text) (c : Cluster) (m : List Cluster)
    → count_named n (insert_by_name c m) ≡ one_if (text_eq n c.name) + count_named n m
unfolding insert_by_name
count-insert n c [] = refl
count-insert n c (d ∷ m) = elim (Bool-cases (before c.name d.name)) [
  | inl later ↦ rw (later, count-insert n c m) (omega arith)
  | inr first ↦ rw first
]

count-sort : (n : Text) (m : List Cluster) → count_named n (sort_by_name m) ≡ count_named n m
unfolding sort_by_name
count-sort n [] = refl
count-sort n (c ∷ m) = count-insert n c (sort_by_name m) ∙ rw (count-sort n m) refl

count-append :
    (n : Text) (m : List Cluster) (c : Cluster)
    → count_named n (m ++ c ∷ []) ≡ count_named n m + one_if (text_eq n c.name)
count-append n [] c = omega arith
count-append n (d ∷ m) c = omega (arith, count-append n m c)

count-find_named : (n : Text) (m : List Cluster) → find_named n m ≡ none → count_named n m ≡ 0
unfolding find_named
count-find_named n [] h = refl
count-find_named n (d ∷ m) h = elim (Bool-cases (text_eq n d.name)) [
  | inl same ↦ cc (rw same at h)
  | inr apart ↦ rw apart (omega (arith, count-find_named n m (rw apart at h)))
]

found_counts :
    (n : Text) (m : List Cluster) (d : Cluster) → find_named n m ≡ some d → 1 ≤ count_named n m
unfolding find_named
found_counts n [] d h = cc h
found_counts n (c ∷ m) d h = elim (Bool-cases (text_eq n c.name)) [
  | inl same ↦ rw same (omega arith)
  | inr apart ↦ rw apart (omega (arith, found_counts n m d (rw apart at h)))
]

-- A name that Get looks for as it is: in DNS form, and neither empty nor "all"
abbrev pub Plain : Text → Type 0
Plain name =
    (format_to_dns1123 name ≡ name) × ((text_eq name [] || text_eq name (bytes "all")) ≡ false)

added :
    (cluster : Cluster) (m m' : ClusterManager)
    → add cluster m ≡ some m'
    → (is_some (get cluster.name m) ≡ false) × (m' ≡ sort_by_name (m ++ cluster ∷ []))
unfolding add
added cluster m m' h = elim (Bool-cases (is_some (get cluster.name m))) [
  | inl there ↦ cc (rw there at h)
  | inr absent ↦ (absent, cc (rw absent at h))
]

count-added :
    (cluster : Cluster) (m : ClusterManager) (n : Text)
    → count_named n (sort_by_name (m ++ cluster ∷ []))
      ≡ count_named n m + one_if (text_eq n cluster.name)
count-added cluster m n = count-sort n (m ++ cluster ∷ []) ∙ count-append n m cluster

Plain-get :
    (name : Text) (m : ClusterManager) → Plain name → get name m ≡ if_online (find_named name m)
unfolding get
Plain-get name m (dns, named) = rw (dns, named)

none_online :
    (m : List Cluster) (n : Text)
    → All (λ c. is_offline c.status ≡ false) m
    → is_some (if_online (find_named n m)) ≡ false
    → find_named n m ≡ none
unfolding find_named if_online
none_online [] n up h = refl
none_online (c ∷ m) n up h = elim (Bool-cases (text_eq n c.name)) [
  | inl same ↦ cc (rw (same, up.0) at h)
  | inr apart ↦ rw apart (none_online m n up.1 (rw apart at h))
]

-- Where no name was listed twice before, no cluster is offline, and the new one's name is in DNS form and
-- neither empty nor "all", Add, if it succeeds, lists no name twice.
pub add_distinct :
    (cluster : Cluster) (m m' : ClusterManager)
    → Plain cluster.name
    → All (λ c. is_offline c.status ≡ false) m
    → ((n : Text) → count_named n m ≤ 1)
    → add cluster m ≡ some m'
    → (n : Text) → count_named n m' ≤ 1
add_distinct cluster m m' plain up distinct h n =
    let (absent, same) = added cluster m m' h in
    let nowhere =
      count-find_named cluster.name m
        (none_online m cluster.name up (rw (Plain-get cluster.name m plain) at absent)) in
    rw (same, count-added cluster m n)
      (elim (Bool-cases (text_eq n cluster.name)) [
        | inl e ↦
            rw ((text_eq_iff n cluster.name).0 e, text_eq_refl cluster.name, nowhere) (omega arith)
        | inr e ↦ rw e (omega (arith, distinct n))
      ])

-- Where the cluster of a name is offline, Add lists a second one under that name, since Get reports an
-- error for it as for one that is not there.
pub add_offline :
    (cluster offline_one : Cluster) (m : ClusterManager)
    → Plain cluster.name
    → find_named cluster.name m ≡ some offline_one
    → is_offline offline_one.status ≡ true
    → (m' : ClusterManager) × (add cluster m ≡ some m') × (2 ≤ count_named cluster.name m')
unfolding add if_online
add_offline cluster d m plain found down = (
  sort_by_name (m ++ cluster ∷ []),
  rw (Plain-get cluster.name m plain, found, down),
  rw (count-added cluster m cluster.name, text_eq_refl cluster.name)
      (omega (arith, found_counts cluster.name m d found)),
)
