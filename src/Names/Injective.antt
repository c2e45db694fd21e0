-- ===== src/Names/Injective.antt =====
-- The names that are generated for the replicas of one deployment.
use Prim.Native.Char.{Char}
use Prim.Native.String.{◌∷◌ as ◌◂◌}
use Prim.Native.String.append
use text.Mathlib.TextLemmas.{append_cancel_left}
use verify_directory_operato.Base.{◌≡◌, ◌↔◌, sym, ap, ◌∙◌, String, ◌<>◌, none, some, arith}
use verify_directory_operato.Base.Text.{to_lower, to_lower-append, before_last}
use verify_directory_operato.Api.{Directory}
use verify_directory_operato.Names.{
  get_replica_pod_name, get_replica_deployment_name, get_proxy_deployment_name,
}

-- A text that strings.ToLower leaves alone, as every Kubernetes name is.
abbrev pub IsLower : String → Type 0
IsLower s = to_lower s ≡ s

abbrev dash : Char
dash = "-"

get_replica_pod_name-append :
    (d : Directory) (p : String) → get_replica_pod_name d p ≡ to_lower d.name <> ("-" <> to_lower p)
unfolding get_replica_pod_name to_lower
get_replica_pod_name-append d p =
    to_lower-append d.name ("-" <> p) ∙ ap (◌<>◌ (to_lower d.name)) (to_lower-append "-" p)

-- Two lower-case PVCs of one deployment have different replica names.
pub get_replica_pod_name_inj :
    (d : Directory) (p q : String)
    → IsLower p
    → IsLower q
    → get_replica_pod_name d p ≡ get_replica_pod_name d q
    → p ≡ q
get_replica_pod_name_inj d p q hp hq e =
    sym hp ∙ append_cancel_left "-" _ _ (append_cancel_left (to_lower d.name) _ _ same) ∙ hq
  where
    same : to_lower d.name <> ("-" <> to_lower p) ≡ to_lower d.name <> ("-" <> to_lower q)
    same = sym (get_replica_pod_name-append d p) ∙ e ∙ get_replica_pod_name-append d q

dash_front : (t : String) → "-" <> t ≡ dash ◂ t
dash_front t = append.cons dash "" t ∙ ap (λ u. dash ◂ u) (append.nil t)

before_last-append :
    (s t : String) → before_last b'-' t ≡ none → before_last b'-' (s <> ("-" <> t)) ≡ some s
unfolding before_last
before_last-append String.[] t h = rw (append.nil ("-" <> t), dash_front t) (ground (arith, h))
before_last-append (String.◌∷◌ c s) t h =
    rw (append.cons c s ("-" <> t)) (ground (arith, before_last-append s t h))

-- From the name of a pod, which Kubernetes makes of its replica set's name, a dash and a suffix
-- with no dash, getReplicaDeploymentName returns the replica set's name.
pub get_replica_deployment_name-pod :
    (d : Directory) (pvc suffix : String)
    → before_last b'-' suffix ≡ none
    → get_replica_deployment_name (get_replica_pod_name d pvc <> ("-" <> suffix))
      ≡ some (get_replica_pod_name d pvc)
unfolding get_replica_deployment_name
get_replica_deployment_name-pod d pvc suffix h = before_last-append _ suffix h

-- A replica has the name of the proxy's own deployment and service exactly when its PVC is called
-- `proxy`, in letters of either case.
pub get_replica_pod_name_iff :
    (d : Directory) (pvc : String)
    → (get_replica_pod_name d pvc ≡ get_proxy_deployment_name d.name) ↔ (to_lower pvc ≡ "proxy")
unfolding to_lower get_proxy_deployment_name get_replica_pod_name
get_replica_pod_name_iff d pvc = (there, back)
  where
    there :
        get_replica_pod_name d pvc ≡ get_replica_pod_name d "proxy"
        → to_lower pvc ≡ to_lower "proxy"
    there e = append_cancel_left "-" _ _ (
        append_cancel_left (to_lower d.name) _ _
          (sym (get_replica_pod_name-append d pvc) ∙ e ∙ get_replica_pod_name-append d "proxy"))

    back :
        to_lower pvc ≡ to_lower "proxy"
        → get_replica_pod_name d pvc ≡ get_replica_pod_name d "proxy"
    back e =
        get_replica_pod_name-append d pvc
        ∙ ap (λ t. to_lower d.name <> ("-" <> t)) e
        ∙ sym (get_replica_pod_name-append d "proxy")
