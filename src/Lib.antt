-- ===== src/Lib.antt =====
-- The stale-secrets-check operator, a Kubernetes controller that records hashes of secrets in a
-- ConfigMap, reports the secrets that were not changed for some days in the status of a
-- StaleSecretWatch object, and sends the report to Slack.
--
-- The program's parts and the files that model them:
--   * Api: the objects of api/v1beta1/stalesecretwatch_types.go and of Kubernetes.
--   * ConfigData: internal/controller/configmap_structure.go, with secretDataExists,
--     updateOrAppendSecretData and addSecretData of internal/controller/stalesecretwatch_controller.go
--     (store_reading is the choice between them). A pointer into the structure is a position.
--   * Strings, Hash, Clock: Contains, CalculateHash and GetNextFiveMinutes of
--     internal/controller/utils.go, with what they use of Go's strings, sort and time. Durations are
--     int64: products wrap round (mul64), differences of instants saturate (sub_time).
--   * Webhook: api/v1beta1/stalesecretwatch_webhook.go. Each method returns the object beside its
--     result, since it writes through its receiver.
--   * WatchList: prepareWatchList. Store: calculateAndStoreHashedSecrets, createOrUpdateConfigMap,
--     getSecret, configMapForStaleSecretWatch, and RetrieveModifiedTime of utils.go. Staleness: the
--     loops of updateSecretStatuses.
--   * Slack, Notify: internal/controller/slack.go, and GetClusterName of
--     internal/controller/get_clusterdetails.go.
--   * Controller: Reconcile, performDailyChecks, the finalizers, updateStatusCondition,
--     updateSecretStatuses, updateLastCheckedAnnotation, and the mapping function of SetupWithManager.
--   * Utils: the other functions of utils.go.
--   * Manager: cmd/main.go, api/v1beta1/groupversion_info.go, SetupWithManager and
--     SetupWebhookWithManager. A process has the steps that it took, each with the error that it
--     answered; the goroutine of the profiling server is a relation beside main (Manager.Ready).
--   * Memory, Layout, DeepCopy: api/v1beta1/zz_generated.deepcopy.go, over a memory of cells. Layout
--     has the structs with addresses for their slices and pointers, and Memory.Copying what it means
--     that a value in memory represents a value without addresses.
--
-- Reconcile calls the others: it gets the object, sets a condition, handles the finalizer, gets or
-- creates the ConfigMap, prepares the watch list, stores the hashes and does the daily checks. A
-- method is a function from a state (Exec.Sys) to an outcome and a new state. The state has the world
-- outside, of any type, the list of what the operator has done to it (writes, events, messages, the
-- latest first) and the next address for an error value, since one test compares errors by identity.
-- An outcome is a return or a panic; an error is a value of Fallible or of Option. Code that runs
-- behind a call is a function of what the call returned, so Reconcile is one function per
-- continuation. Methods that write to the object of their caller return it.
--
-- Controller.History is about Reconciles one after the other, with other changes of the cluster between
-- them: a Keeper says which calls may change the operator's ConfigMap, and a Run is a sequence of such
-- steps.
--
-- The Kubernetes client, the retry functions, the clock, the environment, HTTP, SHA-256, JSON and
-- RFC3339 are parameters (Cluster.System), and what a theorem assumes of them it says. The order in
-- which Go ranges over a map is an answer of the host. All loops are over lists, so there is no fuel.
-- Cluster.Sample has a small world for the tests.
--
-- Not modelled: logging, contexts, the controller-runtime library that calls Reconcile, the test suites
-- and the deployment files. Of a condition the generation and the transition time are left out, of an
-- instant its time zone, and of a slice in memory its capacity.
pub mod Prelude
pub mod Memory
pub mod Layout
pub mod DeepCopy
pub mod Api
pub mod Exec
pub mod Maps
pub mod ConfigData
pub mod Strings
pub mod Webhook
pub mod Clock
pub mod Hash
pub mod Staleness
pub mod Slack
pub mod Cluster
pub mod Utils
pub mod Notify
pub mod WatchList
pub mod Store
pub mod Controller
pub mod Manager
