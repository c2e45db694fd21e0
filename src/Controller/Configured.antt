-- ===== src/Controller/Configured.antt =====
-- The reading of a configuration that is there: its config map, its decoding and its entries.
use verify_directory_operato.Base.{◌≡◌, sym, subst, false, Option, some, String, List, ◌∷◌}
use verify_directory_operato.Yaml.{Value, dict, Fields, get_yaml_value}
use verify_directory_operato.Yaml.Lookup.{path_value, get_yaml_value-path_value}
use verify_directory_operato.Kube.{Env, Answer, granted, ConfigMap, get_config_map, or_panic}
use verify_directory_operato.Kube.Completes.{Completes, Completes-pure}
use verify_directory_operato.Controller.ServerConfig.{entry_of, from_answer, as_dict}

module _ {W : Type 0} where
  pub from_answer-Completes :
      {A : Type 0} (Q : A → Type 0) (r : Answer A) (a : A)
      → r ≡ granted a
      → Q a
      → Completes {W = W} Q (from_answer r)
  from_answer-Completes Q r a e q =
      subst (λ x. Completes {W = W} Q (from_answer x)) (sym e) (Completes-pure Q a q)

  pub or_panic-Completes :
      {A : Type 0} (Q : A → Type 0) (o : Option A) (a : A)
      → o ≡ some a
      → Q a
      → Completes {W = W} Q (or_panic o)
  or_panic-Completes Q o a e q =
      subst (λ x. Completes {W = W} Q (or_panic x)) (sym e) (Completes-pure Q a q)

  pub as_dict-Completes :
      (P : Value → Type 0) (message : String) (v : Value) (fs : Fields)
      → v ≡ dict fs
      → P (dict fs)
      → Completes {W = W} P (as_dict message v)
  as_dict-Completes P message v fs e p =
      subst (λ x. Completes {W = W} P (as_dict message x)) (sym e) (Completes-pure P (dict fs) p)

module _ {W : Type 0} (E : Env W) where
  -- A value that is not resolved.
  pub value-Completes :
      (Q : Value → Type 0) (body : Value) (k : String) (ks : List String) (ns : String)
      → Q (path_value body (k ∷ ks))
      → Completes Q (get_yaml_value E body (k ∷ ks) false ns)
  value-Completes Q body k ks ns q =
      subst (Completes Q) (sym (get_yaml_value-path_value E body k ks false ns))
        (Completes-pure Q (path_value body (k ∷ ks)) q)

-- A config map that is granted whenever it is read, with an entry of which P holds.
abbrev pub Holds : {W : Type 0} → Env W → String → String → String → (String → Type 0) → Type 0
Holds {W} E ns name key P =
    (w : W)
    → (config : ConfigMap) × ((E.answer (get_config_map ns name) w).0 ≡ granted config)
      × P (entry_of key config.entries)
