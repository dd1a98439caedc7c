-- ===== src/Accessors/Hosts.antt =====
-- What the Sidecar of a ServiceAccessor lets its pods reach.
use meshach.Prelude.{inl, inr, List, [], ◌∷◌, ◌++◌, Text, bytes, In}
use meshach.Api.{MeshConfigSpec, ServiceAccessor}
use meshach.Utils.{format_to_dns1123}
use meshach.Accessors.{access_hosts, build_hosts, build_egress, build_sidecar}

In-append : {A : Type 0} (x : A) (xs ys : List A) → In x ys → In x (xs ++ ys)
In-append x [] ys m = m
In-append x (y ∷ xs) ys m = inr (In-append x xs ys m)

In-access_hosts :
    (namespace host : Text) (hosts : List Text)
    → In host hosts
    → In (namespace ++ bytes "/" ++ format_to_dns1123 host) (access_hosts namespace hosts)
unfolding access_hosts
In-access_hosts namespace host [] m = absurd m
In-access_hosts namespace host (h ∷ hosts) (inl e) = inl (rw e)
In-access_hosts namespace host (h ∷ hosts) (inr m) = inr (In-access_hosts namespace host hosts m)

-- Every host that a ServiceAccessor names is in the egress of the built Sidecar, under its DNS name in the
-- accessor's own namespace, whichever namespace the Sidecar is for and whatever the default hosts are.
pub build_sidecar_reaches :
    (mesh : MeshConfigSpec) (namespace : Text) (sa : ServiceAccessor) (host : Text)
    → In host sa.spec.access_hosts
    → In
        (sa.meta.namespace ++ bytes "/" ++ format_to_dns1123 host)
        (build_sidecar mesh namespace sa).spec.egress_hosts
unfolding build_sidecar build_egress build_hosts
build_sidecar_reaches mesh namespace sa host m =
    In-append _ _ _ (In-access_hosts sa.meta.namespace host sa.spec.access_hosts m)
