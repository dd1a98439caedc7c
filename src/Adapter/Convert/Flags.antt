-- ===== src/Adapter/Convert/Flags.antt =====
-- When the flags of a configuration make ToServiceConfig panic.
use meshach.Prelude.{
  ◌≡◌, ◌⊎◌, inl, inr, refl, Bool, true, false, Bool-cases, Option, none, some, List, [], ◌∷◌, Text,
  bytes, lookup, In,
}
use meshach.Adapter.Types.{ConfigItem}
use meshach.Adapter.Convert.{
  Flag, FlagConfigParameter, add_flags, Unmarshal, flag_routes, parsed_routes, routes_of,
}

-- A computation panics exactly where `P` holds.
abbrev pub PanicsIf : {A : Type 0} → Type 0 → Option A → Type 0
PanicsIf {A} P o = (P × (o ≡ none)) ⊎ ((P → ⊥) × (a : A) × (o ≡ some a))

unflagged :
    (f : Flag) (flags : List (Option Flag)) → (In none flags → ⊥) → In none (some f ∷ flags) → ⊥
unflagged f flags apart (inl e) = cc e
unflagged f flags apart (inr m) = apart m

add_flags-PanicsIf : (flags : List (Option Flag)) → PanicsIf (In none flags) (add_flags flags)
unfolding add_flags
add_flags-PanicsIf [] = inr ((λ m. absurd m), [], refl)
add_flags-PanicsIf (none ∷ flags) = inl (inl refl, refl)
add_flags-PanicsIf (some f ∷ flags) = elim (add_flags-PanicsIf flags) [
  | inl (m, e) ↦ inl (inr m, rw e)
  | inr (apart, l, e) ↦
      inr (unflagged f flags apart, record { subset = f.key; weight = f.weight } ∷ l, rw e)
]

module _ (unmarshal : Unmarshal) where
  -- An enabled item, whose flags are manual, has a null among them.
  abbrev pub NilIn : Bool → Option FlagConfigParameter → Type 0
  NilIn enabled none = ⊥
  NilIn enabled (some fcp) = (enabled ≡ true) × (fcp.manual ≡ true) × In none fcp.flags

  abbrev pub NilParsed : Bool → Option Text → Type 0
  NilParsed enabled none = ⊥
  NilParsed enabled (some fc) = NilIn enabled (unmarshal fc)

  -- The flags of the first item for consumers of any host: of its parameter `flag_config`, if it parses
  abbrev pub NilFlag : Option ConfigItem → Type 0
  NilFlag none = ⊥
  NilFlag (some c) = NilParsed c.enabled (lookup (bytes "flag_config") c.parameters)

  flag_routes-PanicsIf :
      (enabled : Bool) (o : Option FlagConfigParameter)
      → PanicsIf (NilIn enabled o) (flag_routes unmarshal enabled o)
  unfolding flag_routes
  flag_routes-PanicsIf enabled none = inr ((λ m. absurd m), [], refl)
  flag_routes-PanicsIf false (some fcp) = inr ((λ (e, m, n). cc e), [], refl)
  flag_routes-PanicsIf true (some fcp) = elim (Bool-cases fcp.manual) [
    | inl e ↦ elim (add_flags-PanicsIf fcp.flags) [
      | inl (m, p) ↦ inl ((refl, e, m), rw (e, p))
      | inr (apart, l, p) ↦ inr ((λ (a, b, m). apart m), l, rw (e, p))
    ]
    | inr e ↦ inr ((λ (a, b, m). cc (b, e)), [], rw e)
  ]

  parsed_routes-PanicsIf :
      (enabled : Bool) (o : Option Text)
      → PanicsIf (NilParsed enabled o) (parsed_routes unmarshal enabled o)
  unfolding parsed_routes
  parsed_routes-PanicsIf enabled none = inr ((λ m. absurd m), [], refl)
  parsed_routes-PanicsIf enabled (some fc) = flag_routes-PanicsIf enabled (unmarshal fc)

  pub routes_of-PanicsIf : (o : Option ConfigItem) → PanicsIf (NilFlag o) (routes_of unmarshal o)
  unfolding routes_of
  routes_of-PanicsIf none = inr ((λ m. absurd m), [], refl)
  routes_of-PanicsIf (some c) =
      parsed_routes-PanicsIf c.enabled (lookup (bytes "flag_config") c.parameters)
