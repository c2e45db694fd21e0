-- ===== src/Yaml/Lookup.antt =====
-- GetYamlValue against the value at a path of nested maps.
use verify_directory_operato.Base.{
  ◌≡◌, refl, Bool, true, false, Option, none, some, String, List, [], ◌∷◌, if◌then◌else◌, inl, inr,
  Option-cases,
}
use verify_directory_operato.Kube.{M, Env, pure}
use verify_directory_operato.Yaml.{Value, null, dict, field_of, resolve_entry, get_yaml_value}

abbrev pub or_nil : Option Value → Value
or_nil none = null
or_nil (some v) = v

-- The value that a path leads to, and nil where it leaves the maps.
unfoldable pub path_value : Value → List String → Value
path_value v [] = v
path_value (dict fs) (k ∷ ks) = path_value (or_nil (field_of k fs)) ks
path_value _ (k ∷ ks) = null

module _ {W : Type 0} (E : Env W) where
  -- Along a path that is not empty GetYamlValue returns the value at the path, and, asked to
  -- resolve, what ResolveEntry makes of that value; nil stands for a missing entry.
  pub get_yaml_value-path_value :
      (v : Value) (k : String) (ks : List String) (resolve : Bool) (namespace : String)
      → get_yaml_value E v (k ∷ ks) resolve namespace ≡ (
          if resolve
          then resolve_entry E (path_value v (k ∷ ks)) namespace
          else pure (path_value v (k ∷ ks)))
  unfolding get_yaml_value path_value resolve_entry
  get_yaml_value-path_value (dict fs) k [] true namespace = last (field_of k fs)
    where
      last :
          (o : Option Value)
          → ◌≡◌ {A = M W Value}
              (elim o [ none ↦ pure null | some entry ↦ resolve_entry E entry namespace ])
              (resolve_entry E (or_nil o) namespace)
      last none = refl
      last (some entry) = refl
  get_yaml_value-path_value (dict fs) k [] false namespace = last (field_of k fs)
    where
      last :
          (o : Option Value)
          → ◌≡◌ {A = M W Value}
              (elim o [ none ↦ pure null | some entry ↦ pure entry ])
              (pure (or_nil o))
      last none = refl
      last (some entry) = refl
  get_yaml_value-path_value (dict fs) k (j ∷ ks) resolve namespace =
      elim (Option-cases (field_of k fs)) [
        | inl e ↦ rw (e, get_yaml_value, path_value) (missing resolve)
        | inr (entry, e) ↦
            rw (e, get_yaml_value, path_value)
              (get_yaml_value-path_value entry j ks resolve namespace)
      ]
    where
      missing :
          (b : Bool)
          → ◌≡◌ {A = M W Value}
              (pure null)
              (if b then resolve_entry E null namespace else pure null)
      missing true = refl
      missing false = refl
  get_yaml_value-path_value _ k ks true namespace = refl
  get_yaml_value-path_value _ k ks false namespace = refl
