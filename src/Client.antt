-- ===== src/Client.antt =====
-- What the controllers use of the Kubernetes client (client.Client of controller-runtime, the
-- predicates of apimachinery's errors package and client-go's retry), as an interface: the packages are
-- not part of the repository. A method of a reconciler is an action on the state of the cluster that
-- returns, fails with an error, or panics.
pub mod Actions
pub mod Sync
use meshach.Prelude.{◌≡◌, ◌⊎◌, inl, inr, refl, Bool, true, false, Option, List, Text}
use meshach.Api.{ObjectMeta}

-- Errors as far as the program tells them apart: apierrors.IsNotFound, IsAlreadyExists, IsConflict.
pub data Error : Type 0 where
  not_found already_exists conflict other : Error

pub data Result (A : Type 0) : Type 0 where
  ok : A → Result A
  err : Error → Result A

-- To split on the answer of a call and keep the equation.
pub Result-cases :
    {A : Type 0} (r : Result A) → ((a : A) × (r ≡ ok a)) ⊎ ((e : Error) × (r ≡ err e))
Result-cases (ok a) = inl (a, refl)
Result-cases (err e) = inr (e, refl)

-- A call that may change the cluster.
abbrev pub Call : Type 0 → Type 0 → Type 0
Call S A = S → Result A × S

-- The operations on one kind of objects, `O`, over a cluster state `S`. `list` takes the namespace and
-- the value of the select label; `get` takes namespace and name.
pub record Store (S O : Type 0) : Type 0 where
  pub get : Text → Text → S → Result O
  pub list : Text → Text → S → Result (List O)
  pub create : O → Call S Unit
  pub update : O → Call S Unit
  pub delete : O → Call S Unit

-- retry.RetryOnConflict(retry.DefaultRetry, f)
abbrev pub Retry : Type 0 → Type 0
Retry S = Call S Unit → Call S Unit

-- controllerutil.SetControllerReference(owner, object): the object's metadata with the owner.
abbrev pub SetOwner : Type 0
SetOwner = ObjectMeta → ObjectMeta → Result ObjectMeta
