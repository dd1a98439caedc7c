-- ===== src/Samples/Generating.antt =====
-- The theorems on the MeshConfig controller at one ServiceAccessor.
use meshach.Prelude.{
  ◌≡◌, refl, inl, inr, ◌&&◌, Bool, true, false, [], ◌∷◌, ℤ, pos, eq_ℤ, if◌then◌else◌, Text, bytes,
  text_eq, In,
}
use meshach.Api.{ServiceAccessor}
use meshach.Client.{not_found, already_exists, conflict, other, Result, ok, err, Call}
use meshach.Generations.{Kind, stamp, stamp_kind}
use meshach.Generations.Converges.{Stores, stamp_kind_converges}
use meshach.Generations.Conflicts.{Retries, stamp-conflict}
use meshach.Samples.Data.{meta_of}

abbrev accessor : ServiceAccessor
accessor = record {
  meta = meta_of (bytes "web");
  spec = record { access_hosts = []; mesh_config_generation = pos 1 };
}

abbrev with_generation : ℤ → ServiceAccessor → ServiceAccessor
with_generation g sa = record sa { spec = record sa.spec { mesh_config_generation = g } }

-- Every object of the cluster by namespace and name
abbrev Table : Type 0
Table = Text → Text → Result ServiceAccessor

abbrev matches : ServiceAccessor → Text → Text → Bool
matches sa namespace name = text_eq sa.meta.namespace namespace && text_eq sa.meta.name name

abbrev table_kind : Kind Table ServiceAccessor
table_kind = record {
  get = λ namespace name s. s namespace name;
  list_all = λ s. ok (accessor ∷ []);
  update =
      λ o s. (ok tt, λ namespace name. if matches o namespace name then ok o else s namespace name);
  retry = λ f x. f x;
  meta = λ sa. sa.meta;
  generation = λ sa. sa.spec.mesh_config_generation;
  set_generation = with_generation;
}

table-Stores : Stores table_kind
table-Stores = record {
  accepts = λ o s. refl;
  get_updated = λ o s namespace name. refl;
  no_retry = λ f x y h. h;
  generation_set = λ g o. refl;
  meta_set = λ g o. refl;
}

abbrev table : Table
table namespace name = ok accessor

stamp_kind_converges_example :
    (o : ServiceAccessor) × (stamp_kind table_kind (pos 2) table (bytes "ns") (bytes "web") ≡ ok o)
    × (o.spec.mesh_config_generation ≡ pos 2)
stamp_kind_converges_example =
    stamp_kind_converges table_kind table-Stores (pos 2) table (accessor ∷ []) refl
      (λ o m. stored o m) accessor (inl refl)
  where
    stored : (o : ServiceAccessor) → In o (accessor ∷ []) → ok accessor ≡ ok o
    stored o (inl e) = rw e
    stored o (inr m) = absurd m

-- A cluster of one object, whose next update may meet a conflict
abbrev Busy : Type 0
Busy = Bool × ServiceAccessor

abbrev busy_update : ServiceAccessor → Call Busy Unit
busy_update o (true, x) = (err conflict, (false, x))
busy_update o (false, x) = (ok tt, (false, o))

abbrev again : {S : Type 0} → Call S Unit → Result Unit × S → Result Unit × S
again f (ok u, y) = (ok u, y)
again f (err conflict, y) = f y
again f (err not_found, y) = (err not_found, y)
again f (err already_exists, y) = (err already_exists, y)
again f (err other, y) = (err other, y)

abbrev busy_kind : Kind Busy ServiceAccessor
busy_kind = record {
  get = λ namespace name s. ok s.1;
  list_all = λ s. ok (s.1 ∷ []);
  update = busy_update;
  retry = λ f x. again f (f x);
  meta = λ sa. sa.meta;
  generation = λ sa. sa.spec.mesh_config_generation;
  set_generation = with_generation;
}

busy-Retries : Retries busy_kind
busy-Retries = record { once_more = λ f x y z first second. twice f x y z first second }
  where
    twice :
        (f : Call (Busy × ServiceAccessor) Unit) (x y z : Busy × ServiceAccessor)
        → f x ≡ (err conflict, y)
        → f y ≡ (ok tt, z)
        → again f (f x) ≡ (ok tt, z)
    twice f x y z first second = rw first second

stamp-conflict_example : stamp busy_kind (pos 2) accessor (true, accessor) ≡ (false, accessor)
unfolding eq_ℤ
stamp-conflict_example =
    stamp-conflict busy_kind busy-Retries (pos 2) accessor accessor (true, accessor)
      (false, accessor) (false, accessor) refl refl refl refl
