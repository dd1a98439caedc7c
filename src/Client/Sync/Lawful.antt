-- ===== src/Client/Sync/Lawful.antt =====
-- What the theorems about the reconcilers assume of the Kubernetes client: the API server keeps the
-- objects of one kind under their names, a write that succeeds has the documented effect, one that fails
-- has none, and a retried call that succeeds has succeeded once.
use meshach.Prelude.{◌≡◌, Option, none, some, List, [], if◌then◌else◌, Text, text_eq, lookup}
use meshach.Api.{ObjectMeta}
use meshach.Client.{Error, ok, err, Call, Store, Retry}
use meshach.Client.Sync.{found_map}

-- The object is in the namespace and has the label that the reconciler lists by.
pub record Belongs (label_key label namespace : Text) (m : ObjectMeta) : Type 0 where
  pub in_namespace : m.namespace ≡ namespace
  pub labelled : lookup label_key m.labels ≡ some label

-- `contents s name` is the listed object of that name.
pub record Lawful {S O : Type 0} (store : Store S O) (meta : O → ObjectMeta) (retry : Retry S)
    (label_key label namespace : Text) (contents : S → Text → Option O) : Type 0 where
  pub list_ok :
      (s : S) (items : List O)
      → store.list namespace label s ≡ ok items
      → (n : Text) → lookup n (found_map meta [] items) ≡ contents s n
  pub listed :
      (s : S) (n : Text) (o : O)
      → contents s n ≡ some o
      → Belongs label_key label namespace (meta o)
  pub create_ok :
      (o : O) (s s' : S)
      → store.create o s ≡ (ok tt, s')
      → Belongs label_key label namespace (meta o)
      → (n : Text) → contents s' n ≡ (if text_eq (meta o).name n then some o else contents s n)
  pub update_ok :
      (o : O) (s s' : S)
      → store.update o s ≡ (ok tt, s')
      → Belongs label_key label namespace (meta o)
      → (n : Text) → contents s' n ≡ (if text_eq (meta o).name n then some o else contents s n)
  pub delete_ok :
      (o : O) (s s' : S)
      → store.delete o s ≡ (ok tt, s')
      → (n : Text) → contents s' n ≡ (if text_eq (meta o).name n then none else contents s n)
  pub update_err : (o : O) (s s' : S) (e : Error) → store.update o s ≡ (err e, s') → s' ≡ s
  pub retry_ok :
      (f : Call S Unit) (s s' : S)
      → ((t t' : S) (e : Error) → f t ≡ (err e, t') → t' ≡ t)
      → retry f s ≡ (ok tt, s')
      → f s ≡ (ok tt, s')
