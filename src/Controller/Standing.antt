-- ===== src/Controller/Standing.antt =====
-- Which replica sets the requests of the controller leave asked for: the last creation or deletion
-- of a replica set decides. `Grown` follows createReplicas, `Shrunk` deleteReplicas, and `Whole`
-- what Reconcile does between its two updates of the status.
pub mod Grown
pub mod Shrunk
pub mod Whole
use verify_directory_operato.Base.{
  ◌≡◌, refl, Bool, true, false, ◌&&◌, ◌||◌, not, String, List, [], ◌∷◌, ◌==◌, if◌then◌else◌, arith,
  eq_refl,
}
use verify_directory_operato.Names.{get_replica_pod_name}
use verify_directory_operato.Api.{Directory}
use verify_directory_operato.Kube.{Env, Request, create, delete, replica_set, replica_sets}
use verify_directory_operato.Controller.Handle.{Handle}
use verify_directory_operato.Controller.Pods.Requests.{is_read}
use verify_directory_operato.Controller.Replica.Build.{replica_object}

-- Whether the replica set of that namespace and name is asked for, after one more request.
abbrev pub stands_after : String → String → Bool → Request → Bool
stands_after ns name up (create (replica_set rs)) =
    if rs.meta.namespace == ns && rs.meta.name == name then true else up
stands_after ns name up (delete replica_sets n m) = if n == ns && m == name then false else up
stands_after ns name up _ = up

-- The replica set of a PVC of the document.
abbrev pub standing : Directory → String → Bool → Request → Bool
standing d pvc = stands_after d.namespace (get_replica_pod_name d pvc)

-- A request that leaves it as it is.
abbrev pub Quiet : Directory → String → Bool → Request → Type 0
Quiet d pvc s q = standing d pvc s q ≡ s

-- Two PVCs of the document share the name of their replica set.
abbrev pub same_replica : Directory → String → String → Bool
same_replica d k pvc = get_replica_pod_name d pvc == get_replica_pod_name d k

abbrev pub any_same : Directory → String → List String → Bool
any_same d k [] = false
any_same d k (pvc ∷ pvcs) = same_replica d k pvc || any_same d k pvcs

module _ (d : Directory) (k : String) where
  pub standing-is_read : (s : Bool) (q : Request) → is_read q ≡ true → Quiet d k s q
  standing-is_read s (create o) e = absurd (cc)
  standing-is_read s (delete kind n m) e = absurd (cc)
  standing-is_read s _ e = refl

  pub standing-delete :
      (s : Bool) (pvc : String)
      → standing d k s (delete replica_sets d.namespace (get_replica_pod_name d pvc))
        ≡ (s && not (same_replica d k pvc))
  standing-delete s pvc = ground (arith, eq_refl d.namespace)

pub standing-create :
    {W : Type 0} (E : Env W) (h : Handle) (k : String) (s : Bool) (pvc : String)
    → standing h.directory k s (create (replica_object E h pvc))
      ≡ (s || same_replica h.directory k pvc)
unfolding replica_object
standing-create E h k s pvc = ground (arith, eq_refl h.directory.namespace)
