-- ===== src/Webhook/Document/Unique.antt =====
-- check_unique against a direct definition of distinct PVCs.
use verify_directory_operato.Base.{
  ◌≡◌, ◌↔◌, refl, Bool, true, not, ◌&&◌, ◌||◌, is_some, String, List, [], ◌∷◌, arith, ◌==◌, eq_iff,
  Option-cases, inl, inr,
}
use verify_directory_operato.Base.Dict.{contains}
use verify_directory_operato.Api.{Directory}
use verify_directory_operato.Kube.{ok, pure, raise}
use verify_directory_operato.Webhook.Document.{first_repeated, check_unique}

-- No text stands twice in the list.
abbrev pub distinct : List String → Bool
distinct [] = true
distinct (x ∷ xs) = not (contains x xs) && distinct xs

abbrev disjoint : List String → List String → Bool
disjoint seen [] = true
disjoint seen (x ∷ xs) = not (contains x seen) && disjoint seen xs

-- The PVCs of the replicas are distinct, and that of the proxy, if any, is none of them.
abbrev pub has_distinct_pvcs : Directory → Bool
has_distinct_pvcs d =
    distinct d.spec.pvcs
    && (d.spec.pods.proxy.pvc == "" || not (contains d.spec.pods.proxy.pvc d.spec.pvcs))

disjoint-cons :
    (x : String) (seen xs : List String)
    → disjoint (x ∷ seen) xs ≡ (not (contains x xs) && disjoint seen xs)
unfolding contains
disjoint-cons x seen [] = refl
disjoint-cons x seen (y ∷ ys) = ground (arith, eq_iff x y, eq_iff y x, disjoint-cons x seen ys)

is_some-first_repeated :
    (seen xs : List String)
    → is_some (first_repeated seen xs) ≡ not (distinct xs && disjoint seen xs)
unfolding first_repeated
is_some-first_repeated seen [] = refl
is_some-first_repeated seen (x ∷ xs) =
    ground (arith, is_some-first_repeated (x ∷ seen) xs, disjoint-cons x seen xs)

disjoint_nil : (xs : List String) → disjoint [] xs ≡ true
unfolding contains
disjoint_nil [] = refl
disjoint_nil (x ∷ xs) = disjoint_nil xs

-- The check of the document's PVCs passes exactly when they are distinct, that of the proxy
-- included.
pub check_unique_iff :
    {W : Type 0} (d : Directory) (w : W)
    → ((check_unique d w).outcome ≡ ok tt) ↔ (has_distinct_pvcs d ≡ true)
unfolding check_unique pure raise
check_unique_iff d w =
    let none_iff = is_some-first_repeated [] d.spec.pvcs in
    let all = disjoint_nil d.spec.pvcs in
    elim (Option-cases (first_repeated [] d.spec.pvcs)) [
      | inl e ↦ ground (arith, e, none_iff, all)
      | inr (pvc, e) ↦ ground (arith, e, none_iff, all)
    ]
