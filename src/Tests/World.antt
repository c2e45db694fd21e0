-- ===== src/Tests/World.antt =====
-- A cluster with one pod that is either up or down: the state of the world says which. Every
-- request but a read of the pod while it is down is granted.
use verify_directory_operato.Base.{
  ◌≡◌, ◌≢◌, refl, Bool, true, false, none, String, List, [], ◌∷◌, arith, eq_iff, eq_refl, ◌==◌,
  if◌then◌else◌,
}
use verify_directory_operato.Base.Int.{pos}
use verify_directory_operato.Api.{Directory, PodsSpec, Condition}
use verify_directory_operato.Kube.{
  M, Env, Request, Reply, Answer, granted, refused, Error, not_found, replica_set, replica_sets,
  Pod, running, ReplicaSet, PodSpec, Service, ok, get_directory, update_status, list_pods,
  get_config_map, get_secret, get_pvc, get_pod, get_job, get_replica_set, list_selected,
  get_service, get_deployment, create, update, update_deployment, patch, delete, exec, ldap_dial,
  ldap_bind, ldap_search, ldap_close, pure, raise, ◌>>=◌,
}
use verify_directory_operato.Kube.Rules.{
  Emits, PollsFairly, RangesOverKeys, Emits-bind, Emits-if, Emits-pure, Emits-raise, bind-returned,
}
use verify_directory_operato.Controller.Handle.{Handle, new_error}
use verify_directory_operato.Controller.Status.{ConditionApi, IsLawful, says_true, says_false}

abbrev pub pods_spec : PodsSpec
pods_spec = record {
  image = record { repo = "icr.io/isvd"; label = "latest"; pull_policy = ""; pull_secrets = none };
  proxy = record { pvc = ""; replicas = pos 1 };
  config_map = record {
    proxy = record { name = "isvd-proxy-base"; key = "config" };
    server = record { name = "isvd-server"; key = "config" };
  };
  resources = "";
  env_from = none;
  env = none;
  service_account_name = "";
  security_context = none;
}

abbrev pub document : Directory
document = record {
  name = "isvd";
  namespace = "ns";
  generation = 1;
  spec = record { pvcs = "pvc1" ∷ "pvc2" ∷ []; pods = pods_spec };
  conditions = [];
}

abbrev pub handle : Handle
handle = record {
  req_namespace = "ns";
  req_name = "isvd";
  directory = document;
  config = record {
    port = pos 9389;
    secure = false;
    license_key = "key";
    admin_dn = "cn=root";
    admin_pwd = "secret";
    suffixes = "o=sample" ∷ [];
  };
}

abbrev pub pod : Pod
pod = record {
  name = "isvd-pvc1-x7k2p";
  labels = ("app.kubernetes.io/pvc-name", "pvc1") ∷ [];
  containers = "isvd-pvc1" ∷ [];
  phase = running;
  statuses = record { ready = true; restart_count = 0 } ∷ [];
}

abbrev pub pod_spec : PodSpec
pod_spec = record {
  volumes = [];
  pull_secrets = none;
  service_account_name = "";
  security_context = none;
  hostname = "";
  never_restart = false;
  containers = [];
}

abbrev pub proxy_set : ReplicaSet
proxy_set = record {
  meta = record { name = "isvd-proxy"; namespace = "ns"; labels = []; owners = [] };
  replicas = pos 1;
  selector = [];
  template = record { name = ""; labels = []; annotations = []; spec = pod_spec };
}

abbrev pub sample_service : Service
sample_service = record {
  meta = proxy_set.meta;
  cluster_ip = "10.0.0.1";
  selector = [];
  port_name = "";
  port = pos 9389;
  target_port = pos 9389;
}

-- What is granted while the cluster is as it is.
abbrev pub reply_to : (q : Request) → Reply q
reply_to (get_directory ns name) = document
reply_to (update_status d) = d
reply_to (update_deployment rs) = rs
reply_to (list_pods ns labels) = pod ∷ []
reply_to (get_config_map ns name) = record {
  meta = proxy_set.meta;
  entries = ("config", "general:") ∷ ("config.yaml", "general:") ∷ [];
}
reply_to (get_secret ns name) = []
reply_to (get_pod ns name) = pod
reply_to (get_job ns name) = record { failures = 0; successes = 1 }
reply_to (get_replica_set ns name) = record { fully_labeled = 1; selector = none }
reply_to (list_selected ns selector) = pod ∷ []
reply_to (ldap_search base) = []
reply_to (get_service ns name) = sample_service
reply_to (get_deployment ns name) = proxy_set
reply_to (get_pvc ns name) = tt
reply_to (create o) = tt
reply_to (update o) = tt
reply_to (patch o) = tt
reply_to (delete kind ns name) = tt
reply_to (exec ns name command) = tt
reply_to (ldap_dial url) = tt
reply_to (ldap_bind dn pwd) = tt
reply_to ldap_close = tt

-- Whether the pod is up after a request.
abbrev pub up_after : Request → Bool → Bool
up_after (create (replica_set rs)) up = true
up_after (delete replica_sets ns name) up = false
up_after _ up = up

abbrev pub absent_error : Error
absent_error = record { kind = not_found; message = "not found" }

abbrev pub answers : (q : Request) → Bool → Answer (Reply q) × Bool
answers (get_pod ns name) true = (granted pod, true)
answers (get_pod ns name) false = (refused absent_error, false)
answers q up = (granted (reply_to q), up_after q up)

-- The condition is looked at once.
abbrev pub poll_once : M Bool Bool → M Bool (Unit {0})
poll_once c =
    c >>= λ done. if done then pure tt else raise (new_error "timed out waiting for the condition")

abbrev pub world : Env Bool
world = record {
  answer = answers;
  beside_error = reply_to;
  shuffle = λ m up. (m, up);
  sleep = λ seconds up. up;
  now = λ up. "20240101000000";
  poll_immediate = λ interval timeout c. poll_once c;
  selector_text = λ selector. "";
  owner_refs = λ d. d.name ∷ [];
}

pub poll_once-Emits : (P : Request → Type 0) (c : M Bool Bool) → Emits P c → Emits P (poll_once c)
poll_once-Emits P c h =
    Emits-bind P c _ h (λ done. Emits-if P done _ _ (Emits-pure P tt) (Emits-raise P _))

pub poll_once-seen :
    (c : M Bool Bool) (w : Bool)
    → (poll_once c w).outcome ≡ ok tt
    → (w' : Bool) × ((c w').outcome ≡ ok true)
unfolding raise
poll_once-seen c w e =
    let (done, first, rest) = bind-returned c _ w tt e in (w, seen done first rest)
  where
    seen :
        (done : Bool)
        → (c w).outcome ≡ ok done
        → ((if done then pure tt else raise (new_error "timed out waiting for the condition"))
            (c w).after).outcome
          ≡ ok tt
        → (c w).outcome ≡ ok true
    seen true first rest = first
    seen false first rest = absurd (cc)

pub world-PollsFairly : PollsFairly world
world-PollsFairly = record {
  emits = λ P interval timeout c h. poll_once-Emits P c h;
  seen = λ interval timeout c w e. poll_once-seen c w e;
}

pub world-RangesOverKeys : RangesOverKeys world
world-RangesOverKeys = record { keys = λ m w k. refl }

-- Conditions as a list with the newest first.
abbrev pub status_of : (Condition → Bool) → List Condition → String → Bool
status_of says [] kind = false
status_of says (c ∷ cs) kind = if c.kind == kind then says c else status_of says cs kind

abbrev pub conditions_api : ConditionApi
conditions_api = record {
  set = λ cs c. c ∷ cs;
  is_true = status_of (λ c. says_true c.status);
  is_false = status_of (λ c. says_false c.status);
}

status_of-same :
    (says : Condition → Bool) (cs : List Condition) (c : Condition)
    → status_of says (c ∷ cs) c.kind ≡ says c
status_of-same says cs c = rw (eq_refl c.kind) refl

status_of-other :
    (says : Condition → Bool) (cs : List Condition) (c : Condition) (kind : String)
    → c.kind ≢ kind
    → status_of says (c ∷ cs) kind ≡ status_of says cs kind
status_of-other says cs c kind h = ground (arith, eq_iff c.kind kind)

pub conditions_api-IsLawful : IsLawful conditions_api
conditions_api-IsLawful = record {
  is_true-set = λ cs c. status_of-same (λ x. says_true x.status) cs c;
  is_false-set = λ cs c. status_of-same (λ x. says_false x.status) cs c;
  is_true-set_ne = λ cs c kind h. status_of-other (λ x. says_true x.status) cs c kind h;
  is_false-set_ne = λ cs c kind h. status_of-other (λ x. says_false x.status) cs c kind h;
}
