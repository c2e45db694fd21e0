-- ===== src/Lib.antt =====
-- The IBM Security Verify Directory operator, a Kubernetes operator in Go. For a custom resource of
-- kind IBMSecurityVerifyDirectory it keeps one replica set of the directory server for each PVC
-- that the resource names, links the replicas by replication agreements, and puts an LDAP proxy in
-- front of them. A webhook checks each document before the API server admits it.
--
-- The parts, and the files that model them. Paths are those of the repository.
--
-- * Base has the names that all files share, and what the program uses of Go: maps as association
--   lists (Dict), texts (Text), int and int32 with its wrap-around (Int), slices (Lists).
-- * Api has the structures of src/api/v1/ibmsecurityverifydirectory_types.go.
-- * Names has src/utils/names.go and the name functions of
--   src/controllers/ibmsecurityverifydirectory_utils.go.
-- * Kube has the surroundings. A function of the operator that talks to the cluster is a function
--   from a world to a Run: an outcome (a value, an error, or a panic), the world after it, and the
--   trace of the requests that it made. `>>=` is the test `if err != nil { return err }`, `settle`
--   is a call whose error the code looks at or drops, `each` a loop that an error leaves, `ask` one
--   request. What is not the operator's code is the parameter Env: the API server's answers, the
--   order of a range over a map, the clock, wait.PollImmediate, and two functions of the client
--   libraries. No law of Env is built in; a theorem that needs one names it (PollsFairly,
--   RangesOverKeys, RangesOverEntries, Echoes). Kube/Rules, Kube/Endings, Kube/Monitor,
--   Kube/Ensures, Kube/Follows and Kube/Completes have the rules by which properties of traces and
--   outcomes are proved along the code.
-- * Yaml has src/utils/yaml.go: ConvertYaml, GetYamlValue and ResolveEntry, with its regular
--   expression in Yaml/Secret.
-- * Controller has src/controllers. Handle is RequestHandle; Pods the waits and the lookup of a
--   replica set's pod, and Objects the config maps, services and commands, of
--   ibmsecurityverifydirectory_utils.go; Replica has deployReplica, seedReplica, deleteReplica and
--   the replication agreements; Grow is createReplicas, one function for each of its phases; Shrink
--   is deleteReplicas; ServerConfig is ibmsecurityverifydirectory_config.go; Proxy is
--   ibmsecurityverifydirectory_proxy.go; Status is setCondition; Reconcile is Reconcile with
--   getExistingPods and analyseExistingPods. Reconcile calls ServerConfig, Grow, Proxy and Shrink
--   in this order, between two updates of the status. Standing and Converged have no code of their
--   own: they are proofs about what these parts do together, on the replica sets that the requests
--   leave asked for, and on a whole run of Reconcile. Configured has lemmas on configurations that
--   can be read.
-- * Webhook has src/api/v1/ibmsecurityverifydirectory_webhook.go: Document is validateDocument and
--   the checks below it, Updates the comparison with the old document, Pods the look at the running
--   pods, Master the question to the LDAP proxy.
-- * Startup has src/main.go: the calls of controller-runtime that set the operator up, and how it
--   exits. The results of these calls, of flag.Parse and of ctrl.GetConfigOrDie are the parameter
--   Runtime.
-- * Tests has concrete surroundings and documents, and the theorems at them.
--
-- Bounds. The retry in getReplicaSetPodName is recursion on the 60 rounds of the source. All other
-- loops are over slices and maps. The decimal form of a number has as many rounds of division as
-- its value plus one, and each round makes the number smaller. Nothing else has fuel.
--
-- What is not modelled. The registration of the types and the two functions that register the
-- controller and the webhook are calls of controller-runtime; createLogParams and the log calls
-- have no effect on the cluster. The YAML and JSON codecs, reflect.DeepEqual on deployments, and
-- the functions of the API machinery on conditions are parameters, the last with the laws that they
-- document (IsLawful). Values of Kubernetes types that the operator only passes on or compares as a
-- whole stand as texts. A service is taken to have its port. The resources, the security context
-- and the source of an environment variable are such texts, and reflect.DeepEqual on the parts of a
-- document is their equality. Exits by a signal or by a panic of the libraries are left out.
-- strings.ToLower is its ASCII part, as Kubernetes names are ASCII. The keys of a decoded map are
-- taken to be distinct.
pub mod Base
pub mod Api
pub mod Names
pub mod Kube
pub mod Yaml
pub mod Controller
pub mod Webhook
pub mod Startup
pub mod Tests
