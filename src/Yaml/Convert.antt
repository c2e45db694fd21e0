-- ===== src/Yaml/Convert.antt =====
-- ConvertYaml: when it panics, and what it makes of a document.
use verify_directory_operato.Base.{
  is_some, ◌≡◌, refl, Bool, true, false, ◌&&◌, Option, none, some, String, arith, ◌==◌,
  if◌then◌else◌, inl, inr, Option-cases,
}
use verify_directory_operato.Yaml.{
  Value, null, text, int, scalar, seq, raw_map, dict, Items, nil, cons, RawFields, raw_end,
  raw_field, Fields, end, field, convert_yaml, convert_items, convert_fields, field_of, ◌>>?◌,
}

abbrev pub is_text : Value → Bool
is_text (text s) = true
is_text _ = false

-- Every key of every map[interface{}]interface{} that ConvertYaml visits is a text.
mutual
  pub has_text_keys : Value → Bool
  has_text_keys null = true
  has_text_keys (text s) = true
  has_text_keys (int i) = true
  has_text_keys (scalar s) = true
  has_text_keys (seq xs) = items_have_text_keys xs
  has_text_keys (raw_map fs) = fields_have_text_keys fs
  has_text_keys (dict fs) = true

  pub items_have_text_keys : Items → Bool
  items_have_text_keys nil = true
  items_have_text_keys (cons x xs) = has_text_keys x && items_have_text_keys xs

  pub fields_have_text_keys : RawFields → Bool
  fields_have_text_keys raw_end = true
  fields_have_text_keys (raw_field k v fs) =
      is_text k && (has_text_keys v && fields_have_text_keys fs)

-- No map[interface{}]interface{} at any depth.
mutual
  pub is_plain : Value → Bool
  is_plain null = true
  is_plain (text s) = true
  is_plain (int i) = true
  is_plain (scalar s) = true
  is_plain (seq xs) = items_are_plain xs
  is_plain (raw_map fs) = false
  is_plain (dict fs) = fields_are_plain fs

  pub items_are_plain : Items → Bool
  items_are_plain nil = true
  items_are_plain (cons x xs) = is_plain x && items_are_plain xs

  pub fields_are_plain : Fields → Bool
  fields_are_plain end = true
  fields_are_plain (field k v fs) = is_plain v && fields_are_plain fs

-- As the decoder builds it: no map[string]interface{} at any depth.
unfoldable mutual
  pub is_raw : Value → Bool
  is_raw null = true
  is_raw (text s) = true
  is_raw (int i) = true
  is_raw (scalar s) = true
  is_raw (seq xs) = items_are_raw xs
  is_raw (raw_map fs) = fields_are_raw fs
  is_raw (dict fs) = false

  pub items_are_raw : Items → Bool
  items_are_raw nil = true
  items_are_raw (cons x xs) = is_raw x && items_are_raw xs

  pub fields_are_raw : RawFields → Bool
  fields_are_raw raw_end = true
  fields_are_raw (raw_field k v fs) = is_raw v && fields_are_raw fs

abbrev pub holds {ℓ} : {A : Type ℓ} → (A → Bool) → Option A → Bool
holds p none = true
holds p (some a) = p a

mutual
  unfolding convert_yaml has_text_keys

  is_some-convert : (v : Value) → is_some (convert_yaml v) ≡ has_text_keys v
  is_some-convert null = refl
  is_some-convert (text s) = refl
  is_some-convert (int i) = refl
  is_some-convert (scalar s) = refl
  is_some-convert (seq xs) = ground (arith, is_some-convert_items xs)
  is_some-convert (raw_map fs) = ground (arith, is_some-convert_fields fs)
  is_some-convert (dict fs) = refl

  is_some-convert_items : (xs : Items) → is_some (convert_items xs) ≡ items_have_text_keys xs
  is_some-convert_items nil = refl
  is_some-convert_items (cons x xs) = ground (arith, is_some-convert x, is_some-convert_items xs)

  is_some-convert_fields : (fs : RawFields) → is_some (convert_fields fs) ≡ fields_have_text_keys fs
  is_some-convert_fields raw_end = refl
  is_some-convert_fields (raw_field k v fs) =
      ground (arith, is_some-convert v, is_some-convert_fields fs)

-- ConvertYaml returns, and does not panic, exactly when every key is a text.
pub is_some-convert_yaml : (v : Value) → is_some (convert_yaml v) ≡ has_text_keys v
is_some-convert_yaml v = is_some-convert v

mutual
  unfolding convert_yaml is_plain is_raw

  plain-convert : (v : Value) → is_raw v ≡ true → holds is_plain (convert_yaml v) ≡ true
  plain-convert null h = refl
  plain-convert (text s) h = refl
  plain-convert (int i) h = refl
  plain-convert (scalar s) h = refl
  plain-convert (seq xs) h = ground (arith, plain-convert_items xs h)
  plain-convert (raw_map fs) h = ground (arith, plain-convert_fields fs h)
  plain-convert (dict fs) h = ground arith

  plain-convert_items :
      (xs : Items) → items_are_raw xs ≡ true → holds items_are_plain (convert_items xs) ≡ true
  plain-convert_items nil h = refl
  plain-convert_items (cons x xs) h = ground (arith, plain-convert x, plain-convert_items xs)

  plain-convert_fields :
      (fs : RawFields)
      → fields_are_raw fs ≡ true
      → holds fields_are_plain (convert_fields fs) ≡ true
  plain-convert_fields raw_end h = refl
  plain-convert_fields (raw_field k v fs) h =
      ground (arith, plain-convert v, plain-convert_fields fs)

mutual
  unfolding convert_yaml is_plain

  convert-plain : (v : Value) → is_plain v ≡ true → convert_yaml v ≡ some v
  convert-plain null h = refl
  convert-plain (text s) h = refl
  convert-plain (int i) h = refl
  convert-plain (scalar s) h = refl
  convert-plain (seq xs) h = rw (convert_items-plain xs h) refl
  convert-plain (raw_map fs) h = ground arith
  convert-plain (dict fs) h = refl

  convert_items-plain : (xs : Items) → items_are_plain xs ≡ true → convert_items xs ≡ some xs
  convert_items-plain nil h = refl
  convert_items-plain (cons x xs) h = ground (arith, convert-plain x, convert_items-plain xs)

-- Of a decoded document ConvertYaml leaves no map[interface{}]interface{} at any depth, and a
-- second conversion of its result changes nothing.
pub convert_yaml-is_plain :
    (v w : Value)
    → is_raw v ≡ true
    → convert_yaml v ≡ some w
    → (is_plain w ≡ true) × (convert_yaml w ≡ some w)
convert_yaml-is_plain v w raw e =
    let plain : is_plain w ≡ true = ground (arith, plain-convert v raw) in
    (plain, convert-plain w plain)

-- The value under a key of a decoded map.
abbrev pub raw_field_of : String → RawFields → Option Value
raw_field_of k raw_end = none
raw_field_of k (raw_field (text j) v fs) = if j == k then some v else raw_field_of k fs
raw_field_of k (raw_field _ v fs) = raw_field_of k fs

-- A converted map has the keys of the map that it came from, and under each the conversion of
-- what stood there.
pub field_of-convert_fields :
    (k : String) (fs : RawFields) (gs : Fields)
    → convert_fields fs ≡ some gs
    → field_of k gs ≡ (raw_field_of k fs >>? convert_yaml)
unfolding convert_fields field_of
field_of-convert_fields k raw_end gs e = ground arith
field_of-convert_fields k (raw_field (text j) v fs) gs e = elim (Option-cases (convert_yaml v)) [
  | inl bad ↦ ground arith
  | inr (w, ev) ↦ elim (Option-cases (convert_fields fs)) [
    | inl bad ↦ ground arith
    | inr (hs, ef) ↦ ground (arith, field_of-convert_fields k fs hs ef)
  ]
]
field_of-convert_fields k (raw_field _ v fs) gs e = ground arith
