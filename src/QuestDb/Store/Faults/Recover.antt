-- ===== src/QuestDb/Store/Faults/Recover.antt =====
-- Reconciliations in which requests fail do no harm: the first one without a failure ends where it
-- would have ended without them.
use questdb_operator.Prelude.{◌≡◌, refl, ◌∙◌, some, List, [], ◌∷◌, All}
use questdb_operator.Kube.Error.{ok}
use questdb_operator.Kube.Meta.{NamespacedName, MetaLib, object_key}
use questdb_operator.Kube.Exec.{State}
use questdb_operator.Api.Types.{QuestDb}
use questdb_operator.Secrets.{QuestDbSecrets, secrets_of}
use questdb_operator.QuestDb.Calls.{Client, Call}
use questdb_operator.QuestDb.Build.Volumes.{DefaultTexts}
use questdb_operator.QuestDb.Reconcile.{reconcile}
use questdb_operator.QuestDb.Store.{Cluster, IsLawful, IsKeyed, Desired, settle}
use questdb_operator.QuestDb.Store.Converge.{Desired-with_status, reconcile-settles}
use questdb_operator.QuestDb.Store.Faults.{IsHonest}
use questdb_operator.QuestDb.Store.Faults.Aims.{Aims}
use questdb_operator.QuestDb.Store.Faults.Handlers.{AimsStill, reconcile-AimsStill}

-- One reconciliation after another, each with a server of its own answers.
abbrev pub attempts :
    {W : Type 0} → MetaLib → DefaultTexts → NamespacedName → List (Client W) → W → W
attempts lib texts req [] w = w
attempts lib texts req (client ∷ clients) w =
    attempts lib texts req clients
      (reconcile client lib texts req (record { world = w; log = [] })).1.world

module _ {W : Type 0} (lib : MetaLib) (texts : DefaultTexts) (q : QuestDb)
    (secrets : QuestDbSecrets) (d : Desired lib texts q secrets) (cluster : W → Cluster) where
  attempts-AimsStill :
      (goal : Cluster) (clients : List (Client W)) (w : W)
      → All (λ client. IsHonest client cluster (object_key q.meta)) clients
      → AimsStill lib texts q secrets d cluster goal w
      → AimsStill lib texts q secrets d cluster goal
          (attempts lib texts (object_key q.meta) clients w)
  attempts-AimsStill goal [] w honest aims = aims
  attempts-AimsStill goal (client ∷ clients) w (honest, rest) aims =
      let s : State W Call = record { world = w; log = [] } in
      attempts-AimsStill goal clients _ rest
        (reconcile-AimsStill lib texts q secrets d cluster goal client honest s aims)

  -- Failures do no lasting harm. Take a database that is there, with usable secrets, whose objects
  -- can be built and stand under its name where they are there, and let nobody else write. Let it be
  -- reconciled any number of times while every request may fail: a failed write may be done or not,
  -- and only a success and an answer that nothing is found are true. Then a reconciliation in which
  -- no request fails succeeds, and ends where it would have ended if it had come first.
  pub reconcile-recovers :
      (clients : List (Client W)) (client : Client W) (w : W)
      → All (λ client. IsHonest client cluster (object_key q.meta)) clients
      → IsLawful client cluster (object_key q.meta)
      → (cluster w).questdb ≡ some q
      → secrets_of q.meta.name (cluster w).secrets ≡ ok secrets
      → IsKeyed (object_key q.meta) (cluster w)
      → let s : State W Call = record {
        world = attempts lib texts (object_key q.meta) clients w;
        log = [];
      } in
        let (answer, s') = reconcile client lib texts (object_key q.meta) s in
        (answer ≡ ok tt) × (cluster s'.world ≡ settle q d (cluster w))
  reconcile-recovers clients client w honest lawful known chosen keyed =
      let goal = settle q d (cluster w) in
      let s : State W Call = record {
        world = attempts lib texts (object_key q.meta) clients w;
        log = [];
      } in
      let first : Aims q d goal q.status (cluster w) = record {
        known = known;
        target = refl;
        chosen = chosen;
        keyed = keyed;
      } in
      let (status, aims) = attempts-AimsStill goal clients w honest (q.status, first) in
      let (done, settled) =
        reconcile-settles client lib texts (record q { status = status }) secrets
          (Desired-with_status lib texts q secrets status d) cluster lawful s aims.known aims.chosen
          aims.keyed in
      (done, settled ∙ aims.target)
