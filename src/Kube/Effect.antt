-- ===== src/Kube/Effect.antt =====
-- The effect of a function of the operator, and the primitive effects.
use verify_directory_operato.Base.{ℕ, Bool, Option, none, some, String, List, [], ◌∷◌, ◌++◌}
use verify_directory_operato.Base.Dict.{Dict}
use verify_directory_operato.Api.{Labels, Directory}
use verify_directory_operato.Kube.Objects.{
  Error, ConfigMap, Object, Kind, Pod, JobStatus, ReplicaSet, Service, LdapEntry,
}

-- A Go function returns a value, or an error, or panics.
pub data Outcome (A : Type 0) : Type 0 where
  ok : A → Outcome A
  fail : Error → Outcome A
  panic : Outcome A

-- What getReplicaSetPodName reads of a replica set.
pub record ReplicaSetState : Type 0 where
  pub fully_labeled : ℕ
  pub selector : Option Labels

-- The calls of the API server and of the proxy's LDAP server. Namespaces come first, then names.
pub data Request : Type 0 where
  get_directory : String → String → Request
  update_status : Directory → Request
  list_pods : String → Labels → Request
  get_config_map : String → String → Request
  get_secret : String → String → Request
  get_pvc : String → String → Request
  get_pod : String → String → Request
  get_job : String → String → Request
  get_replica_set : String → String → Request
  list_selected : String → String → Request
  get_service : String → String → Request
  get_deployment : String → String → Request
  create : Object → Request
  update : Object → Request
  update_deployment : ReplicaSet → Request
  patch : Object → Request
  delete : Kind → String → String → Request
  exec : String → String → List String → Request
  ldap_dial : String → Request
  ldap_bind : String → String → Request
  ldap_search : String → Request
  ldap_close : Request

-- What a call that succeeds returns. An update writes the server's version back into its argument.
abbrev pub Reply : Request → Type 0
Reply (get_directory ns name) = Directory
Reply (update_status d) = Directory
Reply (update_deployment rs) = ReplicaSet
Reply (list_pods ns labels) = List Pod
Reply (get_config_map ns name) = ConfigMap
Reply (get_secret ns name) = Dict String
Reply (get_pod ns name) = Pod
Reply (get_job ns name) = JobStatus
Reply (get_replica_set ns name) = ReplicaSetState
Reply (list_selected ns selector) = List Pod
Reply (ldap_search base) = List LdapEntry
Reply (get_service ns name) = Service
Reply (get_deployment ns name) = ReplicaSet
Reply _ = Unit

pub data Answer (A : Type 0) : Type 0 where
  granted : A → Answer A
  refused : Error → Answer A

-- One run: how it ended, the world after it, and the requests that it made, oldest first.
pub record Run (W A : Type 0) : Type 0 where
  pub outcome : Outcome A
  pub after : W
  pub trace : List Request

abbrev pub M : Type 0 → Type 0 → Type 0
M W A = W → Run W A

-- The surroundings, over a world W.
pub record Env (W : Type 0) : Type 0 where
  -- the API server's answer to a request
  pub answer : (q : Request) → W → Answer (Reply q) × W
  -- the value that the client returns beside an error
  pub beside_error : (q : Request) → Reply q
  -- the entries of a map in the order in which Go ranges over it this time
  pub shuffle : Dict String → W → Dict String × W
  -- time.Sleep, in seconds
  pub sleep : ℕ → W → W
  -- time.Now(), in the layout 20060102150405
  pub now : W → String
  -- wait.PollImmediate: the interval, the timeout, in seconds, and the condition
  pub poll_immediate : ℕ → ℕ → M W Bool → M W (Unit {0})
  -- the text of metav1.LabelSelectorAsSelector
  pub selector_text : Option Labels → String
  -- the owner references that ctrl.SetControllerReference puts into an object
  pub owner_refs : Directory → List String

module _ {W : Type 0} where
  unfoldable pub pure : {A : Type 0} → A → M W A
  pure a w = record { outcome = ok a; after = w; trace = [] }

  unfoldable pub raise : {A : Type 0} → Error → M W A
  raise e w = record { outcome = fail e; after = w; trace = [] }

  unfoldable pub panics : {A : Type 0} → M W A
  panics w = record { outcome = panic; after = w; trace = [] }

  abbrev pub then_run : {A : Type 0} → List Request → Run W A → Run W A
  then_run t r = record r { trace = t ++ r.trace }

  -- `v, err := m; if err != nil { return err }`, and on with v.
  abbrev pub continue : {A B : Type 0} → Run W A → (A → M W B) → Run W B
  continue r f = elim r.outcome [
    | ok a ↦ then_run r.trace (f a r.after)
    | fail e ↦ record { outcome = fail e; after = r.after; trace = r.trace }
    | panic ↦ record { outcome = panic; after = r.after; trace = r.trace }
  ]

  infixl 5 ◌>>=◌ ◌>>◌
  unfoldable pub ◌>>=◌ : {A B : Type 0} → M W A → (A → M W B) → M W B
  unfolding pure raise panics
  ◌>>=◌ m f w = continue (m w) f

  abbrev pub ◌>>◌ : {A B : Type 0} → M W A → M W B → M W B
  m >> k = m >>= λ _. k

  -- `v, err := m`, where the code looks at the error itself or drops it. A panic goes on up.
  unfoldable pub settle : {A : Type 0} → M W A → M W (Answer A)
  settle m w =
      let r = m w in
      elim r.outcome [
        | ok a ↦ record { outcome = ok (granted a); after = r.after; trace = r.trace }
        | fail e ↦ record { outcome = ok (refused e); after = r.after; trace = r.trace }
        | panic ↦ record { outcome = panic; after = r.after; trace = r.trace }
      ]

  -- `if err == nil { f } else { g }`
  abbrev pub on_answer : {A B : Type 0} → Answer A → (A → M W B) → (Error → M W B) → M W B
  on_answer (granted a) f g = f a
  on_answer (refused e) f g = g e

  abbrev pub or_panic : {A : Type 0} → Option A → M W A
  or_panic none = panics
  or_panic (some a) = pure a

  -- A loop over a slice whose body may return an error from the function.
  unfoldable pub each : {A : Type 0} → (A → M W (Unit {0})) → List A → M W (Unit {0})
  each f [] = pure tt
  each f (x ∷ xs) = f x >>= λ _. each f xs

abbrev pub outcome_of : {A : Type 0} → Answer A → Outcome A
outcome_of (granted a) = ok a
outcome_of (refused e) = fail e

abbrev pub value_of : {A : Type 0} → A → Answer A → A
value_of d (granted a) = a
value_of d (refused e) = d

module _ {W : Type 0} (E : Env W) where
  -- One call of the API server.
  unfoldable pub ask : (q : Request) → M W (Reply q)
  ask q w =
      let (a, w') = E.answer q w in record { outcome = outcome_of a; after = w'; trace = q ∷ [] }

  -- One call whose error is only logged: the code goes on with what came beside it.
  unfoldable pub ask_anyway : (q : Request) → M W (Reply q)
  ask_anyway q w =
      let (a, w') = E.answer q w in
      record { outcome = ok (value_of (E.beside_error q) a); after = w'; trace = q ∷ [] }

  -- `for k, v := range m`
  unfoldable pub shuffled : Dict String → M W (Dict String)
  shuffled m w =
      let (order, w') = E.shuffle m w in record { outcome = ok order; after = w'; trace = [] }

  unfoldable pub clock : M W String
  clock w = record { outcome = ok (E.now w); after = w; trace = [] }

  unfoldable pub paused : ℕ → M W (Unit {0})
  paused seconds w = record { outcome = ok tt; after = E.sleep seconds w; trace = [] }
