-- ===== src/Tests/Decoding.antt =====
-- The theorems on YAML values and references to secrets at concrete values.
use verify_directory_operato.Base.{◌≡◌, refl, is_some, true, some, [], ◌∷◌, if◌then◌else◌}
use verify_directory_operato.Base.Int.{pos}
use verify_directory_operato.Yaml.{
  text, int, raw_map, dict, RawFields, raw_end, raw_field, Fields, end, field, field_of,
  convert_yaml, convert_fields, resolve_entry, get_yaml_value, ◌>>?◌,
}
use verify_directory_operato.Yaml.Convert.{
  is_plain, is_raw, has_text_keys, raw_field_of, is_some-convert_yaml, convert_yaml-is_plain,
  field_of-convert_fields,
}
use verify_directory_operato.Yaml.Lookup.{path_value, get_yaml_value-path_value}
use verify_directory_operato.Yaml.Secret.{find_submatch}
use verify_directory_operato.Yaml.Reference.{find_submatch-reference}
use verify_directory_operato.Kube.{pure}
use verify_directory_operato.Tests.World.{world}

abbrev raw_ports : RawFields
raw_ports = raw_field (text "ldap") (int (pos 389)) raw_end

abbrev ports : Fields
ports = field "ldap" (int (pos 389)) end

is_some-convert_yaml_example :
    is_some (convert_yaml (raw_map raw_ports)) ≡ has_text_keys (raw_map raw_ports)
is_some-convert_yaml_example = is_some-convert_yaml (raw_map raw_ports)

convert_yaml-is_plain_example :
    (is_plain (dict ports) ≡ true) × (convert_yaml (dict ports) ≡ some (dict ports))
unfolding convert_yaml is_raw
convert_yaml-is_plain_example = convert_yaml-is_plain (raw_map raw_ports) (dict ports) refl refl

field_of-convert_fields_example :
    field_of "ldap" ports ≡ (raw_field_of "ldap" raw_ports >>? convert_yaml)
unfolding convert_fields
field_of-convert_fields_example = field_of-convert_fields "ldap" raw_ports ports refl

get_yaml_value-path_value_example : get_yaml_value world (dict ports) ("ldap" ∷ []) true "ns" ≡ (
    if true
    then resolve_entry world (path_value (dict ports) ("ldap" ∷ [])) "ns"
    else pure (path_value (dict ports) ("ldap" ∷ [])))
get_yaml_value-path_value_example = get_yaml_value-path_value world (dict ports) "ldap" [] true "ns"

find_submatch-reference_example : find_submatch "secret:ldap/pwd" ≡ some ("ldap", "pwd")
find_submatch-reference_example = find_submatch-reference "ldap" "pwd" refl refl
