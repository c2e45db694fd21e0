-- ===== src/Tests/Accepting.antt =====
-- An update that the webhook accepts: it adds a replica, and the proxy writes to the one that stays.
use verify_directory_operato.Base.{
  ◌≡◌, refl, true, false, inl, some, [], ◌∷◌, arith, Bool, if◌then◌else◌, ◌==◌, ◌&&◌,
}
use verify_directory_operato.Base.Dict.{has, contains, lookup}
use verify_directory_operato.Yaml.{convert_yaml, field_of}
use verify_directory_operato.Yaml.Lookup.{path_value}
use verify_directory_operato.Yaml.Secret.{has_prefix}
use verify_directory_operato.Base.Text.{to_lower, decimal}
use verify_directory_operato.Base.Int.{itoa}
use verify_directory_operato.Kube.{
  Env, ok, granted, Request, Reply, Answer, refused, Pod, list_pods, ldap_dial, ldap_bind,
  ldap_search, LdapEntry,
}
use verify_directory_operato.Kube.Rules.{RangesOverEntries}
use verify_directory_operato.Names.{labels_for_app}
use verify_directory_operato.Webhook.{validate_update}
use verify_directory_operato.Webhook.Document.Accepted.{Resolves}
use verify_directory_operato.Webhook.Order.{Acceptable}
use verify_directory_operato.Webhook.Master.{masters, is_master, find_master}
use verify_directory_operato.Webhook.Pods.Allowed.{Belongs, Allows}
use verify_directory_operato.Webhook.Accepted.{validate_update-accepts}
use verify_directory_operato.Tests.World.{
  sample_service, absent_error, world, document, pod, conditions_api, reply_to,
}
use verify_directory_operato.Tests.Cluster.{codec, configuration}
use verify_directory_operato.Tests.Admission.{one_replica}

-- The proxy writes to the server of pvc1.
abbrev split : LdapEntry
split = record {
  dn = "ibm-slapdProxyBackendServerName=isvd-pvc1+ibm-slapdProxyBackendDN=,cn=split_0";
  attributes =
      record { name = "ibm-slapdProxyCurrentServerRole"; values = "primarywriteserver" ∷ [] } ∷ [];
}

-- The pod of the proxy, which the selector of the listing selects.
abbrev proxy_pod : Pod
proxy_pod = record pod { name = "isvd-proxy-5d9c8"; labels = labels_for_app "isvd" "" }

-- One address, one name and one password are granted.
abbrev grants_all : (q : Request) → Bool → Answer (Reply q) × Bool
grants_all (ldap_dial url) up =
    (if url == "ldap://10.0.0.1:9389" then granted tt else refused absent_error, up)
grants_all (ldap_bind dn pwd) up =
    (if dn == "cn=root" && pwd == "secret" then granted tt else refused absent_error, up)
grants_all (list_pods ns labels) up = (granted (proxy_pod ∷ []), up)
grants_all (ldap_search base) up = (granted (split ∷ []), up)
grants_all q up = (granted (reply_to q), up)

abbrev granting_world : Env Bool
granting_world = record world { answer = grants_all }

document-Acceptable : Acceptable conditions_api document (some one_replica)
unfolding contains
document-Acceptable = record {
  idle = refl;
  healthy = refl;
  before = one_replica;
  is_old = refl;
  same = record {
    image = refl;
    config_map = refl;
    resources = refl;
    env_from = refl;
    env = refl;
    service_account_name = refl;
  };
  distinct = refl;
}

document-Resolves : Resolves granting_world codec.decode document
unfolding has lookup convert_yaml path_value field_of
document-Resolves = record {
  pvcs = (λ w. (tt, refl), (λ w. (tt, refl), tt));
  proxy_pvc = λ e. absurd (cc);
  proxy = λ w. (_, refl, refl);
  server = λ w. (_, refl, refl);
  env_from = tt;
  base = λ w. (_, refl, (_, configuration, refl, refl, refl, refl));
}

split-Belongs : Belongs document (masters (to_lower document.name) (split ∷ []) [])
unfolding masters is_master find_master to_lower contains
split-Belongs pvc e = ground (arith, e)

granting_world-RangesOverEntries : RangesOverEntries granting_world
granting_world-RangesOverEntries = record { entries = λ R m w h. h }

document-Allows : Allows granting_world codec.decode document
unfolding lookup convert_yaml path_value field_of has_prefix itoa decimal
document-Allows = record {
  pods = proxy_pod ∷ [];
  lists = λ w. refl;
  serves = (λ w. (pod, refl, record { is_running = refl; is_ready = refl }), tt);
  answers = record {
    contact = record {
      service = sample_service;
      body = _;
      secure = false;
      dn = "cn=root";
      pwd = "secret";
    };
    serviced = λ w. refl;
    config = λ w. (_, refl, (configuration, refl, refl));
    ldap = refl;
    dn = refl;
    pwd = inl (refl, refl);
    dials = λ w. refl;
    binds = λ w. refl;
    finds = λ w. (split, [], refl, split-Belongs);
  };
}

validate_update-accepts_example :
    (validate_update granting_world conditions_api codec.decode document
      (some one_replica)
      true).outcome
    ≡ ok tt
validate_update-accepts_example =
    validate_update-accepts granting_world conditions_api codec.decode document (some one_replica)
      document-Acceptable document-Resolves granting_world-RangesOverEntries document-Allows true
