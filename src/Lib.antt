-- ===== src/Lib.antt =====
-- The operator of QuestDB: its webhooks, the secrets that it reads, and its three controllers.
--
-- The program and this library
--
-- * api/v1beta1 declares the three kinds QuestDB, QuestDBSnapshot and QuestDBSnapshotSchedule
--   (Api.Types) and their webhooks: `Default`, `ValidateCreate`, `ValidateUpdate` and
--   `ValidateDelete` of questdb_webhook.go (Api.Config for `validateDbConfig`, Api.QuestDbWebhook),
--   questdbsnapshot_webhook.go (Api.SnapshotWebhook) and questdbsnapshotschedule_webhook.go
--   (Api.ScheduleWebhook). A verdict is `none` or the check that failed (Api.Validation).
-- * internal/secrets (Secrets): `GetSecrets` is `get_secrets`, the part behind the call of `List`
--   is `secrets_of`, and `CheckSecretForQdb` is `check_secret_for_qdb`.
-- * internal/controller/questdb_controller.go (QuestDb): the builders of the pods and the service
--   (QuestDb.Build.Pods), of the claim and the config map (QuestDb.Build.Volumes), the
--   `reconcile...` methods (QuestDb.Objects, with the comparison of stateful sets in
--   QuestDb.Objects.Merge) and `Reconcile` (QuestDb.Reconcile).
-- * internal/controller/questdbsnapshot_controller.go (Snapshot): the builders of the jobs and the
--   volume snapshot (Snapshot.Build), the handlers of the phases (Snapshot.Phases), one function
--   for each `handlePhase...`, and `Reconcile` (Snapshot.Reconcile).
-- * internal/controller/questdbsnapshotschedule_controller.go (Schedule): `garbageCollect`
--   (Schedule.Gc), `getOrderedChildSnapshots`, `buildSnapshot`, `buildCrontab` and
--   `getLastSnapshotTime` (Schedule.Children) and `Reconcile` (Schedule.Reconcile).
--
-- * cmd/main.go and the `SetupWithManager` and `SetupWebhookWithManager` functions (Manager): `init`
--   and `main` are `init` and `main`, a chain of requests to the manager of controller-runtime that
--   ends at the first error. Manager.Owned relates what the QuestDB and snapshot controllers create
--   to what they registered as owned.
--
-- The webhooks guard the objects that the controllers read. The schedule controller creates
-- snapshots, the snapshot controller runs SQL against a database, and both database and snapshot
-- controllers use the secrets.
--
-- How the code is modelled
--
-- A handler (Kube.Exec) takes a state, which is the API server's, opaque, and the log of the calls
-- made so far, and returns a result or an error and the new state. The server is a record of
-- functions (the three `Client`s) that answer anything; so errors, conflicts and lost updates are
-- all covered. An update answers with the object as the server stored it, which the handler goes on
-- with, as the Go client decodes the answer into its argument. Theorems speak of the log.
--
-- The objects of Kubernetes (Kube.Objects) have the fields that the program reads or writes. Other
-- types of third parties are texts (`Blob`) that are copied and compared. A map is a list in the
-- order of its keys, and `none` is the nil map; a nil slice is the empty list. Texts of
-- configurations are lists of bytes. An `int32` is an integer whose sum wraps around at 32 bits
-- (Prelude.Int). A quantity is its value and its form, as for one that fits a machine integer;
-- decimals behind a pointer are left out. Times are nanoseconds. `panic` is an
-- error of its own. Every loop of the program is a recursion over a list, so there is no fuel. The
-- scanner's limit is its 65536 bytes.
--
-- What reconciliations add up to
--
-- QuestDb.Store has an abstract state of one database and its four objects (`Cluster`), a function
-- on it (`settle`) and what an undisturbed server promises (`IsLawful`, over any state of the
-- server of which a cluster can be read): a read tells what is there, and a write stores the object
-- as it was given and nothing else. What a server adds to an object of its own accord, as defaults
-- and versions, is outside this view. The theorems there compare the handlers with `settle`.
-- QuestDb.Store.Faults has a weaker promise (`IsHonest`) for a server whose requests may fail, a
-- write also behind its being done. The desired objects (`Desired`) are what the
-- builders return; QuestDb.Store.Converge.desired has them for every database.
--
-- Snapshot.Life strings reconciliations of one snapshot together (`Life`). Between two of them the
-- server may do what it likes, but each reads the snapshot in the phase that the one before left.
-- Stale caches and other writers between the calls are the subject of Snapshot.Phases.Forward and
-- Schedule.Reconcile.Regular: there the server tells the versions of an object apart by their
-- resource versions (`Versioned`), and each call may also move the state as others write it.
-- Kube.Exec.Moves has the rules for such moves.
--
-- Snapshot.Phases.Progress has an abstract state of one snapshot, its two jobs and its volume
-- snapshot (`Scene`), and what a server promises on which nothing fails (`Cooperates`): a creation
-- stores the object without the status, which is a subresource, and is refused where the object is
-- already there. Jobs get done and volume snapshots get ready between the reconciliations, by the
-- work of others (`Works` in Snapshot.Reconcile.Success). Snapshot.Phases.Patience says what a server
-- does where requests fail and jobs take their time (`IsPatient`), and Snapshot.Reconcile.Patience
-- mixes reconciliations on both kinds of server.
--
-- Schedule.Reconcile.Guard follows the calls of one reconciliation of a schedule and says what stands
-- before each creation of a snapshot; Schedule.Reconcile.Laws and Schedule.Reconcile.Overlap name
-- such conditions. Schedule.Admission puts the webhooks of schedules and snapshots before and behind
-- the schedule controller (`Admitted`), and Schedule.Completion follows what it builds to the
-- snapshot controller.
--
-- Parameters stand for code of others: the finalizer and owner functions of controller-runtime
-- (`MetaLib`), the cron parser (`Cron`), `sort.Slice`, the format of times and `RetryOnConflict`
-- (`GoLib`). What a theorem assumes of them is one of its hypotheses.
--
-- What is not modelled: the default texts of internal/controller/const.go, which are copied into the
-- config map and are a parameter (`DefaultTexts`); the access rules of the kubebuilder markers; the
-- parsing of the flags and the logger of cmd/main.go; generated deep copies; the texts of
-- events and errors.
mod Prelude
pub mod Kube
pub mod Cron
pub mod Api
pub mod Secrets
pub mod Snapshot
pub mod QuestDb
pub mod Schedule
pub mod Manager
pub mod Examples
