-- ===== src/Tests/Configuring.antt =====
-- The theorems on the configurations of the server and of the proxy at concrete documents.
use verify_directory_operato.Base.{false, ◌≡◌, refl, Bool, true, String, [], ◌∷◌}
use verify_directory_operato.Base.Int.{pos, to_int32, is_zero}
use verify_directory_operato.Yaml.{
  Value, text, int, dict, seq, cons, nil, end, field, field_of, get_yaml_value, resolve_entry,
}
use verify_directory_operato.Kube.{Answer, refused, ReplicaSet, ok, pure, raise, panics, ◌>>=◌}
use verify_directory_operato.Kube.Rules.{Returns}
use verify_directory_operato.Controller.Handle.{new_error}
use verify_directory_operato.Controller.ServerConfig.{config_of, ldap_port, get_config_suffixes}
use verify_directory_operato.Controller.ServerConfig.Port.{Reflects, config_of-Reflects}
use verify_directory_operato.Controller.Proxy.{Codec}
use verify_directory_operato.Tests.World.{world}

abbrev decode : String → Answer Value
decode s = refused (new_error "yaml")

abbrev codec : Codec
codec = record {
  decode = decode;
  yaml_to_json = λ s. refused (new_error "yaml");
  json_to_yaml = λ s. refused (new_error "yaml");
}

abbrev same_spec : ReplicaSet → ReplicaSet → Bool
same_spec old new = true

-- general.ports.ldap is 389.
abbrev ports : Value
ports =
    dict (field "general" (dict (field "ports" (dict (field "ldap" (int (pos 389)) end)) end)) end)

-- A document with a port, a license key, a password and a suffix, and with no administrator.
abbrev server : Value
server = dict (
    field "general"
      (dict (
        field "ports" (dict (field "ldap" (int (pos 389)) end)) (
          field "license" (dict (field "key" (text "abc") end))
            (field "admin" (dict (field "pwd" (text "passw0rd") end)) end))))
      (field "server"
        (dict (field "suffixes" (seq (cons (dict (field "dn" (text "o=sample") end)) nil)) end))
        end))

-- What is read from it.
config_of_server :
    (config_of world decode server "ns" true).outcome
    ≡ ok (record {
      port = pos 389;
      secure = false;
      license_key = "abc";
      admin_dn = "cn=root";
      admin_pwd = "passw0rd";
      suffixes = "o=sample" ∷ [];
    })
unfolding config_of ldap_port get_config_suffixes get_yaml_value resolve_entry field_of to_int32
    is_zero pure raise panics ◌>>=◌
config_of_server = refl

config_of-Reflects_example :
    Returns (Reflects world decode "ns" server) (config_of world decode server "ns")
config_of-Reflects_example = config_of-Reflects world decode "ns" server
