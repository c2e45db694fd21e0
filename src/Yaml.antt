-- ===== src/Yaml.antt =====
-- src/utils/yaml.go: ConvertYaml, GetYamlValue and ResolveEntry. What yaml.Unmarshal returns is the
-- data type `Value`; the decoder itself is a parameter of its users.
pub mod Secret
pub mod Convert
pub mod Lookup
pub mod Reference
pub mod Requests
pub mod Resolved
use verify_directory_operato.Base.{
  Bool, true, false, Option, none, some, String, List, [], ◌∷◌, ◌==◌, if◌then◌else◌,
}
use verify_directory_operato.Base.Int.{ℤ}
use verify_directory_operato.Base.Dict
use verify_directory_operato.Kube.{
  M, Env, on_answer, pure, panics, ask, get_secret, settle, ◌>>=◌, ◌>>◌, Answer, granted, refused,
}
use Secret.{find_submatch, has_prefix}

-- A value of Go's interface{} as the decoder builds it. `raw_map` is map[interface{}]interface{},
-- `dict` is map[string]interface{}, `scalar` any other scalar by its text. Keys are distinct.
mutual
  pub data Value : Type 0 where
    null : Value
    text : String → Value
    int : ℤ → Value
    scalar : String → Value
    seq : Items → Value
    raw_map : RawFields → Value
    dict : Fields → Value

  pub data Items : Type 0 where
    nil : Items
    cons : Value → Items → Items

  pub data RawFields : Type 0 where
    raw_end : RawFields
    raw_field : Value → Value → RawFields → RawFields

  pub data Fields : Type 0 where
    end : Fields
    field : String → Value → Fields → Fields

infixl 5 ◌>>?◌
-- A chain of steps that may panic, which is `none`.
abbrev pub ◌>>?◌ : {A B : Type 0} → Option A → (A → Option B) → Option B
none >>? f = none
some a >>? f = f a

-- k.(string)
abbrev pub as_text : Value → Option String
as_text (text s) = some s
as_text _ = none

-- ConvertYaml; `none` is the panic of a key that is no text.
unfoldable mutual
  pub convert_yaml : Value → Option Value
  convert_yaml null = some null
  convert_yaml (text s) = some (text s)
  convert_yaml (int i) = some (int i)
  convert_yaml (scalar s) = some (scalar s)
  convert_yaml (seq xs) = convert_items xs >>? λ ys. some (seq ys)
  convert_yaml (raw_map fs) = convert_fields fs >>? λ gs. some (dict gs)
  convert_yaml (dict fs) = some (dict fs)

  pub convert_items : Items → Option Items
  convert_items nil = some nil
  convert_items (cons x xs) = convert_yaml x >>? λ y. convert_items xs >>? λ ys. some (cons y ys)

  pub convert_fields : RawFields → Option Fields
  convert_fields raw_end = some end
  convert_fields (raw_field k v fs) = as_text k >>? λ name.
      convert_yaml v >>? λ w. convert_fields fs >>? λ gs. some (field name w gs)

-- v[key]
unfoldable pub field_of : String → Fields → Option Value
field_of k end = none
field_of k (field j v fs) = if j == k then some v else field_of k fs

-- Go's nil interface.
abbrev pub is_nil : Value → Bool
is_nil null = true
is_nil _ = false

abbrev text_or_nil : Option String → Value
text_or_nil none = null
text_or_nil (some s) = text s

module _ {W : Type 0} (E : Env W) where
  -- The value under a key of a secret, and nil if the secret cannot be read or lacks the key.
  read_secret : String → String → String → M W Value
  read_secret namespace name key = do
    secret ← settle (ask E (get_secret namespace name))
    on_answer secret (λ entries. pure (text_or_nil (Dict.lookup key entries))) (λ e. pure null)

  -- ResolveEntry
  unfoldable pub resolve_entry : Value → String → M W Value
  unfolding read_secret has_prefix find_submatch
  resolve_entry (text unresolved) namespace =
      if has_prefix unresolved "secret:"
      then elim (find_submatch unresolved) [
        | none ↦ pure null
        | some (name, key) ↦ read_secret namespace name key
      ]
      else pure (text unresolved)
  resolve_entry entry namespace = pure entry

  -- GetYamlValue; key[0] panics on an empty key.
  unfoldable pub get_yaml_value : Value → List String → Bool → String → M W Value
  unfolding field_of
  get_yaml_value (dict v) [] resolve namespace = panics
  get_yaml_value (dict v) (k ∷ []) resolve namespace = elim (field_of k v) [
    | none ↦ pure null
    | some entry ↦ if resolve then resolve_entry entry namespace else pure entry
  ]
  get_yaml_value (dict v) (k ∷ j ∷ ks) resolve namespace = elim (field_of k v) [
    | none ↦ pure null
    | some entry ↦ get_yaml_value entry (j ∷ ks) resolve namespace
  ]
  get_yaml_value _ key resolve namespace = pure null
