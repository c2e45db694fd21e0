-- ===== src/Controller/Reconcile/Analysis.antt =====
-- What analyseExistingPods removes and adds, against the document.
use verify_directory_operato.Base.{◌≡◌, refl, not, ◌&&◌, ◌||◌, String, List, [], ◌∷◌, arith, eq_iff}
use verify_directory_operato.Base.Dict.{Dict, has, contains}
use verify_directory_operato.Kube.{Env}
use verify_directory_operato.Kube.Rules.{
  Returns, Returns-pure, Returns-bind, RangesOverKeys, shuffled-Returns,
}
use verify_directory_operato.Controller.Handle.{Handle}
use verify_directory_operato.Controller.Reconcile.{obsolete, missing, analyse_existing_pods}

pub contains-obsolete :
    (pvcs : List String) (existing : Dict String) (k : String)
    → contains k (obsolete pvcs existing) ≡ (has k existing && not (contains k pvcs))
unfolding contains obsolete has
contains-obsolete pvcs [] k = refl
contains-obsolete pvcs ((pvc, name) ∷ existing) k =
    ground (arith, eq_iff pvc k, contains-obsolete pvcs existing k)

pub contains-missing :
    (existing : Dict String) (pvcs : List String) (k : String)
    → contains k (missing existing pvcs) ≡ (contains k pvcs && not (has k existing))
unfolding contains missing
contains-missing existing [] k = refl
contains-missing existing (pvc ∷ pvcs) k =
    ground (arith, eq_iff pvc k, contains-missing existing pvcs k)

-- The replicas to be deleted are those that exist and that the document does not name, the
-- replicas to be added are those that it names and that do not exist, and the existing replicas
-- without the former and with the latter are exactly those of the document.
pub analyse_existing_pods-Returns :
    {W : Type 0} (E : Env W)
    → RangesOverKeys E
    → (h : Handle) (existing : Dict String) (k : String)
    → let pvcs = h.directory.spec.pvcs in
      Returns
        (λ changes.
          (contains k changes.0 ≡ (has k existing && not (contains k pvcs)))
          × (contains k changes.1 ≡ (contains k pvcs && not (has k existing)))
          × (((has k existing && not (contains k changes.0)) || contains k changes.1)
              ≡ contains k pvcs))
        (analyse_existing_pods E h existing)
unfolding analyse_existing_pods
analyse_existing_pods-Returns E fair h existing k =
    let pvcs = h.directory.spec.pvcs in
    Returns-bind _ _ _ _ (shuffled-Returns E fair existing) λ order same.
      Returns-pure _ _
        (ground (arith, same k, contains-obsolete pvcs order k, contains-missing existing pvcs k))
