-- ===== src/Yaml/Requests.antt =====
-- The requests of GetYamlValue and ResolveEntry.
use verify_directory_operato.Base.{sym, subst, Bool, Option, none, some, String, List, ◌∷◌}
use verify_directory_operato.Kube.{Env, Request, get_secret, pure}
use verify_directory_operato.Kube.Rules.{
  Emits, Emits-pure, Emits-if, Emits-settle, Emits-bind, Emits-answer, Emits-ask,
}
use verify_directory_operato.Yaml.{
  Value, null, text, int, scalar, seq, raw_map, dict, read_secret, resolve_entry, get_yaml_value,
}
use verify_directory_operato.Yaml.Secret.{find_submatch}
use verify_directory_operato.Yaml.Lookup.{get_yaml_value-path_value}

module _ {W : Type 0} (E : Env W) (P : Request → Type 0)
    (secrets : (namespace name : String) → P (get_secret namespace name)) where
  Emits-read_secret : (namespace name key : String) → Emits P (read_secret E namespace name key)
  unfolding read_secret
  Emits-read_secret namespace name key =
      Emits-bind P _ _ (Emits-settle P _ (Emits-ask E P _ (secrets namespace name)))
        λ secret. Emits-answer P secret _ _ (λ entries. Emits-pure P _) (λ e. Emits-pure P _)

  Emits-found :
      (namespace : String) (found : Option (String × String))
      → Emits {W = W} P
          (elim found [ none ↦ pure null | some (name, key) ↦ read_secret E namespace name key ])
  Emits-found namespace none = Emits-pure P null
  Emits-found namespace (some (name, key)) = Emits-read_secret namespace name key

  Emits-resolve_entry : (v : Value) (namespace : String) → Emits P (resolve_entry E v namespace)
  unfolding resolve_entry
  Emits-resolve_entry (text s) namespace =
      Emits-if P _ _ _ (Emits-found namespace (find_submatch s)) (Emits-pure P (text s))
  Emits-resolve_entry null namespace = Emits-pure P null
  Emits-resolve_entry (int i) namespace = Emits-pure P (int i)
  Emits-resolve_entry (scalar s) namespace = Emits-pure P (scalar s)
  Emits-resolve_entry (seq xs) namespace = Emits-pure P (seq xs)
  Emits-resolve_entry (raw_map fs) namespace = Emits-pure P (raw_map fs)
  Emits-resolve_entry (dict fs) namespace = Emits-pure P (dict fs)

  pub Emits-get_yaml_value :
      (v : Value) (k : String) (ks : List String) (resolve : Bool) (namespace : String)
      → Emits P (get_yaml_value E v (k ∷ ks) resolve namespace)
  Emits-get_yaml_value v k ks resolve namespace =
      subst (λ m. Emits P m) (sym (get_yaml_value-path_value E v k ks resolve namespace))
        (Emits-if P resolve _ _ (Emits-resolve_entry _ namespace) (Emits-pure P _))
