-- ===== src/ServiceConfigs/Names.antt =====
-- The label by which the two controllers list what belongs to a service: `truncated` of
-- controllers/serviceconfig/utils.go and of controllers/configuredservice/workloadentry.go.
use meshach.Prelude.{
  ℕ, ◌-◌, ◌*◌, ◌≡◌, ◌≢◌, ◌<◌, ◌≤◌, refl, ap, sym, ◌∙◌, arith, lt→ltb, List, [], ◌∷◌, Text, length,
  drop, length-drop, trim,
}
use meshach.ServiceConfigs.Build.{truncated}
use meshach.ConfiguredServices.Build as Configured
use meshach.ConfiguredServices.Build.{hex}

length-hex : (bs : List ℕ) → length (hex bs) ≡ 2 * length bs
unfolding hex
length-hex [] = refl
length-hex (b ∷ bs) = omega (arith, length-hex bs)

-- For a name of at most 62 bytes both controllers use the same label.
pub truncated_same :
    (sha1 : Text → List ℕ) (name : Text)
    → length name ≤ 62
    → truncated name ≡ Configured.truncated sha1 name
truncated_same sha1 name h = unfold truncated Configured.truncated in ground arith

-- For a name of more than 62 bytes the controllers use different labels if neither end of its last 62
-- bytes is a dot and a digest has 20 bytes.
pub truncated_apart :
    (sha1 : Text → List ℕ) (name : Text)
    → ((text : Text) → length (sha1 text) ≡ 20)
    → 62 < length name
    → trim b'.' (drop (length name - 62) name) ≡ drop (length name - 62) name
    → truncated name ≢ Configured.truncated sha1 name
truncated_apart sha1 name digest long plain same = omega (
  arith,
  ap length (sym cut ∙ same ∙ digested),
  length-hex (sha1 name),
  digest name,
  length-drop (length name - 62) name,
)
  where
    cut : truncated name ≡ drop (length name - 62) name
    cut = unfold truncated in rw (lt→ltb 62 (length name) long, plain)

    digested : Configured.truncated sha1 name ≡ hex (sha1 name)
    digested = unfold Configured.truncated in rw (lt→ltb 62 (length name) long)
