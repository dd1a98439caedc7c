-- ===== src/Adapter/Convert/Configs.antt =====
-- What ToServiceConfig makes of a configuration, and when it panics.
use meshach.Prelude.{
  ◌≡◌, ◌↔◌, ◌⊎◌, inl, inr, refl, Bool, true, false, ◌&&◌, none, some, List, [], ◌∷◌, arith, ◌==◌,
  length, Bool-cases, Option-cases, Text, bytes, text_eq, In,
}
use meshach.Api.{ServiceConfig, InstanceConfig, Destination}
use meshach.Utils.{format_to_dns1123}
use meshach.Adapter.Types.{ConfigItem, ConfiguratorConfig}
use meshach.Adapter.Convert.{
  any_host, instance_config, add_instance_config, instance_configs, Unmarshal, assembled,
  built_config, to_service_config, find_flag_config,
}
use meshach.Adapter.Convert.Flags.{NilFlag, routes_of-PanicsIf}

-- An item that is enabled has an address.
abbrev pub addressed : Bool → List Text → Bool
addressed false addresses = true
addressed true [] = false
addressed true (a ∷ more) = true

abbrev pub all_addressed : List ConfigItem → Bool
all_addressed [] = true
all_addressed (ci ∷ configs) = addressed ci.enabled ci.addresses && all_addressed configs

added :
    (enabled : Bool) (addresses : List Text) (ci : ConfigItem) (rest : List InstanceConfig)
    → addressed enabled addresses ≡ true
    → (l : List InstanceConfig) × (add_instance_config enabled addresses ci rest ≡ some l)
unfolding add_instance_config
added false addresses ci rest h = (rest, refl)
added true [] ci rest h = cc h
added true (a ∷ more) ci rest h = (_, refl)

not_added :
    (enabled : Bool) (addresses : List Text) (ci : ConfigItem) (rest : List InstanceConfig)
    → addressed enabled addresses ≡ false
    → add_instance_config enabled addresses ci rest ≡ none
unfolding add_instance_config
not_added false addresses ci rest h = cc h
not_added true [] ci rest h = refl
not_added true (a ∷ more) ci rest h = cc h

instance_configs-some :
    (configs : List ConfigItem)
    → all_addressed configs ≡ true
    → (l : List InstanceConfig) × (instance_configs configs ≡ some l)
unfolding instance_configs
instance_configs-some [] h = ([], refl)
instance_configs-some (ci ∷ configs) h =
    let (rest, e) = instance_configs-some configs (ground arith) in
    let (l, a) = added ci.enabled ci.addresses ci rest (ground arith) in (l, rw (e, a))

instance_configs-none :
    (configs : List ConfigItem) → all_addressed configs ≡ false → instance_configs configs ≡ none
unfolding instance_configs
instance_configs-none [] h = cc h
instance_configs-none (ci ∷ configs) h = elim (Bool-cases (all_addressed configs)) [
  | inl all ↦
      let (rest, e) = instance_configs-some configs all in
      rw e (not_added ci.enabled ci.addresses ci rest (ground arith))
  | inr some_not ↦ rw (instance_configs-none configs some_not)
]

-- What an item gives: nothing where it is not enabled; else the config of its first address, where that
-- is a host and the item is for providers.
abbrev pub Gives : Bool → List Text → ConfigItem → InstanceConfig → Type 0
Gives false addresses ci x = ⊥
Gives true [] ci x = ⊥
Gives true (address ∷ more) ci x =
    (text_eq address any_host ≡ false)
    × (text_eq ci.side (bytes "provider") ≡ true)
    × (x ≡ instance_config address ci)

abbrev pub Configured : List ConfigItem → InstanceConfig → Type 0
Configured [] x = ⊥
Configured (ci ∷ configs) x = Gives ci.enabled ci.addresses ci x ⊎ Configured configs x

added_In :
    (enabled : Bool) (addresses : List Text) (ci : ConfigItem) (rest l : List InstanceConfig)
    (x : InstanceConfig)
    → add_instance_config enabled addresses ci rest ≡ some l
    → In x l
    → Gives enabled addresses ci x ⊎ In x rest
unfolding add_instance_config
added_In false addresses ci rest l x h m = let same : rest ≡ l = cc h in inr (rw same m)
added_In true [] ci rest l x h m = cc h
added_In true (b ∷ more) ci rest l x h m = elim (Bool-cases (text_eq b any_host)) [
  | inl host ↦ let same : rest ≡ l = cc (rw host at h) in inr (rw same m)
  | inr host ↦ elim (Bool-cases (text_eq ci.side (bytes "provider"))) [
    | inl side ↦
        let same : instance_config b ci ∷ rest ≡ l = cc (rw (host, side) at h) in
        elim (rw (← same) at m) [ inl e ↦ inl (host, side, e) | inr r ↦ inr r ]
    | inr side ↦ let same : rest ≡ l = cc (rw (host, side) at h) in inr (rw same m)
  ]
]

In-added :
    (enabled : Bool) (addresses : List Text) (ci : ConfigItem) (rest l : List InstanceConfig)
    (x : InstanceConfig)
    → add_instance_config enabled addresses ci rest ≡ some l
    → Gives enabled addresses ci x ⊎ In x rest
    → In x l
unfolding add_instance_config
In-added false addresses ci rest l x h (inl g) = absurd g
In-added false addresses ci rest l x h (inr m) = let same : rest ≡ l = cc h in rw (← same) m
In-added true [] ci rest l x h m = cc h
In-added true (b ∷ more) ci rest l x h (inl (host, side, e)) =
    let same : instance_config b ci ∷ rest ≡ l = cc (rw (host, side) at h) in rw (← same) (inl e)
In-added true (b ∷ more) ci rest l x h (inr m) = elim (Bool-cases (text_eq b any_host)) [
  | inl host ↦ let same : rest ≡ l = cc (rw host at h) in rw (← same) m
  | inr host ↦ elim (Bool-cases (text_eq ci.side (bytes "provider"))) [
    | inl side ↦
        let same : instance_config b ci ∷ rest ≡ l = cc (rw (host, side) at h) in
        rw (← same) (inr m)
    | inr side ↦ let same : rest ≡ l = cc (rw (host, side) at h) in rw (← same) m
  ]
]

-- The instance configs are those that the items of the configuration give, no more and no fewer.
pub instance_configs_iff :
    (configs : List ConfigItem) (l : List InstanceConfig) (x : InstanceConfig)
    → instance_configs configs ≡ some l
    → In x l ↔ Configured configs x
unfolding instance_configs
instance_configs_iff [] l x h = let same : [] ≡ l = cc h in rw (← same) ((λ m. m), (λ m. m))
instance_configs_iff (ci ∷ configs) l x h = elim (Option-cases (instance_configs configs)) [
  | inl e ↦ cc (rw e at h)
  | inr (rest, e) ↦
      let step = rw e at h in
      let ih = instance_configs_iff configs rest x e in
      (
        λ m. elim (added_In ci.enabled ci.addresses ci rest l x step m) [
          | inl g ↦ inl g
          | inr r ↦ inr (ih.0 r)
        ],
        λ m.
            In-added ci.enabled ci.addresses ci rest l x step
              (elim m [ inl g ↦ inl g | inr r ↦ inr (ih.1 r) ]),
      )
]

built :
    (unmarshal : Unmarshal) (namespace : Text) (cfg : ConfiguratorConfig)
    → all_addressed cfg.configs ≡ true
    → (NilFlag unmarshal (find_flag_config cfg.configs) → ⊥)
    → (l : List InstanceConfig) × (routes : List Destination) × (instance_configs cfg.configs
        ≡ some l)
      × (built_config unmarshal namespace cfg ≡ some (assembled unmarshal namespace cfg l routes))
unfolding built_config
built unmarshal namespace cfg h flagged =
    let (l, e) = instance_configs-some cfg.configs h in
    elim (routes_of-PanicsIf unmarshal (find_flag_config cfg.configs)) [
      | inl (n, p) ↦ absurd (flagged n)
      | inr (n, routes, p) ↦ (l, routes, e, rw (e, p))
    ]

built_none :
    (unmarshal : Unmarshal) (namespace : Text) (cfg : ConfiguratorConfig)
    → (all_addressed cfg.configs ≡ false) ⊎ NilFlag unmarshal (find_flag_config cfg.configs)
    → built_config unmarshal namespace cfg ≡ none
unfolding built_config
built_none unmarshal namespace cfg (inl h) = rw (instance_configs-none cfg.configs h)
built_none unmarshal namespace cfg (inr flagged) =
    elim (routes_of-PanicsIf unmarshal (find_flag_config cfg.configs)) [
      | inl (n, p) ↦ elim (Option-cases (instance_configs cfg.configs)) [
        | inl e ↦ rw e
        | inr (l, e) ↦ rw (e, p)
      ]
      | inr (n, routes, p) ↦ absurd (n flagged)
    ]

-- For a configuration with a key, ToServiceConfig panics exactly where an enabled item has no address, or
-- where the first item for consumers of any host is enabled and has a parameter `flag_config` that parses
-- as manual flags with a null among them.
pub to_service_config-panics :
    (unmarshal : Unmarshal) (namespace : Text) (cfg : ConfiguratorConfig)
    → (length cfg.key == 0) ≡ false
    → (to_service_config unmarshal namespace (some cfg) ≡ none)
      ↔ ((all_addressed cfg.configs ≡ false) ⊎ NilFlag unmarshal (find_flag_config cfg.configs))
unfolding to_service_config
to_service_config-panics unmarshal namespace cfg key = (
  λ h. elim (Bool-cases (all_addressed cfg.configs)) [
    | inl all ↦ elim (routes_of-PanicsIf unmarshal (find_flag_config cfg.configs)) [
      | inl (n, p) ↦ inr n
      | inr (n, routes, p) ↦
          let (l, rs, e, b) = built unmarshal namespace cfg all n in cc (rw (key, b) at h)
    ]
    | inr some_not ↦ inl some_not
  ],
  λ h. rw (key, built_none unmarshal namespace cfg h),
)

-- For a configuration with a key, whose enabled items have addresses and whose flags have no null,
-- ToServiceConfig returns a ServiceConfig of the key's DNS name in the namespace, with an instance config
-- for every enabled item for providers whose first address is a host, and for nothing else.
pub to_service_config_lem :
    (unmarshal : Unmarshal) (namespace : Text) (cfg : ConfiguratorConfig)
    → (length cfg.key == 0) ≡ false
    → all_addressed cfg.configs ≡ true
    → (NilFlag unmarshal (find_flag_config cfg.configs) → ⊥)
    → (sc : ServiceConfig) × (to_service_config unmarshal namespace (some cfg) ≡ some (some sc))
      × (sc.meta.name ≡ format_to_dns1123 cfg.key)
      × (sc.meta.namespace ≡ namespace)
      × ((x : InstanceConfig) → In x sc.spec.instances ↔ Configured cfg.configs x)
unfolding to_service_config
to_service_config_lem unmarshal namespace cfg key all flagged =
    let (l, routes, e, b) = built unmarshal namespace cfg all flagged in
    (
      assembled unmarshal namespace cfg l routes,
      rw (key, b),
      unfold assembled in refl,
      unfold assembled in refl,
      λ x. unfold assembled in instance_configs_iff cfg.configs l x e,
    )
