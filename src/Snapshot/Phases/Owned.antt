-- ===== src/Snapshot/Phases/Owned.antt =====
-- What the handlers of the phases create: jobs and volume snapshots that the snapshot controls.
use questdb_operator.Prelude.{
  String, ◌≡◌, refl, inl, inr, true, Option-cases, Option, none, some, Bool, ◌&&◌, List, [], ◌∷◌,
  arith,
}
use questdb_operator.Kube.Error.{Result-cases, ok}
use questdb_operator.Kube.Meta.{ObjectMeta, NamespacedName, MetaLib, OwnerLaws, object_key}
use questdb_operator.Kube.Exec.{State, call!, bind-keeps, bind-keeps_result, bind-result}
use questdb_operator.Kube.Objects.Workload.{Job}
use questdb_operator.Api.Types.{
  QuestDbSnapshot, SnapshotPhase, empty, pending, running, finalizing, failed, succeeded, unknown,
}
use questdb_operator.Secrets.{get_secrets}
use questdb_operator.Snapshot.Calls.{
  Client, Call, created_job, created_volume_snapshot, listed_secrets, got_job, deleted_job,
  got_class,
}
use questdb_operator.Snapshot.Build.{
  build_generic_snapshot_job, build_pre_snapshot_job, build_post_snapshot_job,
  build_volume_snapshot, volume_snapshot, snapshot_job, pre_snapshot, post_snapshot,
}
use questdb_operator.Snapshot.Phases.{
  handle_phase_empty, handle_phase_pending, handle_phase_running, handle_phase_finalizing,
  handle_phase_failed, handle_phase_succeeded, handle_phase, release_snapshot, delete_jobs,
  job_names, run_pre_snapshot_job, check_pre_snapshot_job, start_snapshot, add_complete_finalizer,
  enter_phase, prepare_snapshot,
}

-- The object whose creation is asked for.
abbrev pub created_meta : Call → Option ObjectMeta
created_meta (created_job job _) = some job.meta
created_meta (created_volume_snapshot v _) = some v.meta
created_meta _ = none

abbrev pub is_controlled : MetaLib → ObjectMeta → Option ObjectMeta → Bool
is_controlled lib owner none = true
is_controlled lib owner (some m) = lib.is_controlled_by m owner

-- Every object whose creation was asked for has the controller.
abbrev pub all_controlled : MetaLib → ObjectMeta → List Call → Bool
all_controlled lib owner [] = true
all_controlled lib owner (call ∷ calls) =
    is_controlled lib owner (created_meta call) && all_controlled lib owner calls

module _ {W : Type 0} (client : Client W) (lib : MetaLib) (laws : OwnerLaws lib)
    (snap : QuestDbSnapshot) where
  abbrev Controlled : State W Call → Type 0
  Controlled s = all_controlled lib snap.meta s.log ≡ true

  abbrev IsControlled : Job → Type 0
  IsControlled job = lib.is_controlled_by job.meta snap.meta ≡ true

  job-IsControlled :
      (name_suffix command : String) (s : State W Call) (job : Job)
      → (build_generic_snapshot_job client lib snap name_suffix command s).0 ≡ ok job
      → IsControlled job
  unfolding build_generic_snapshot_job
  job-IsControlled name_suffix command =
      bind-result
        (get_secrets (λ ns. call! (listed_secrets ns) (client.list_secrets ns))
          (object_key snap.meta))
        _ IsControlled
        (λ secrets s job built.
          let plain = snapshot_job snap secrets.psql_secret name_suffix command in
          elim (Result-cases (lib.set_controller_reference snap.meta plain.meta)) [
            | inl (m, good) ↦ ground (arith, built, good, laws.controls snap.meta _ m good)
            | inr (e, bad) ↦ ground (arith, built, bad)
          ])

  job-Controlled :
      (name_suffix command : String) (s : State W Call)
      → Controlled s
      → Controlled (build_generic_snapshot_job client lib snap name_suffix command s).1
  unfolding build_generic_snapshot_job get_secrets
  job-Controlled name_suffix command s h = ground arith

  empty-Controlled :
      (s : State W Call) → Controlled s → Controlled (handle_phase_empty client lib snap s).1
  unfolding handle_phase_empty
  empty-Controlled s h = ground arith

  running-Controlled :
      (s : State W Call) → Controlled s → Controlled (handle_phase_running client lib snap s).1
  unfolding handle_phase_running build_volume_snapshot
  running-Controlled s h =
      elim (Result-cases (lib.set_controller_reference snap.meta (volume_snapshot snap).meta)) [
        | inl (m, good) ↦ ground (arith, good, laws.controls snap.meta _ m good)
        | inr (e, bad) ↦ ground (arith, bad)
      ]

  finalizing-Controlled :
      (s : State W Call) → Controlled s → Controlled (handle_phase_finalizing client lib snap s).1
  unfolding handle_phase_finalizing build_post_snapshot_job
  finalizing-Controlled s h =
      let build = build_generic_snapshot_job client lib snap post_snapshot "SNAPSHOT COMPLETE;" in
      bind-keeps_result Controlled Controlled build _ s
        (job-Controlled post_snapshot "SNAPSHOT COMPLETE;" s h) (λ _ g. g)
        (λ job s1 e h1.
          let controlled = job-IsControlled post_snapshot "SNAPSHOT COMPLETE;" s job e in
          ground (arith, controlled, h1))

  failed-Controlled :
      (s : State W Call) → Controlled s → Controlled (handle_phase_failed client lib snap s).1
  unfolding handle_phase_failed
  failed-Controlled s h = ground arith

  release_snapshot-Controlled :
      (s : State W Call) → Controlled s → Controlled (release_snapshot client lib snap s).1
  unfolding release_snapshot
  release_snapshot-Controlled s h = ground arith

  delete_jobs-Controlled :
      (namespace : String) (names : List String) (s : State W Call)
      → Controlled s
      → Controlled (delete_jobs client lib namespace names s).1
  unfolding delete_jobs
  delete_jobs-Controlled namespace [] s h = h
  delete_jobs-Controlled namespace (name ∷ names) s h =
      let key : NamespacedName = record { namespace = namespace; name = name } in
      let (found, w1) = client.get_job key s.world in
      let read : State W Call = record { world = w1; log = got_job key found ∷ s.log } in
      elim (Result-cases found) [
        | inr (e, missing) ↦ ground (arith, delete_jobs-Controlled namespace names read)
        | inl (job, there) ↦
            let (answer, w2) = client.delete_job job w1 in
            ground (
              arith,
              delete_jobs-Controlled namespace names
                  (record { world = w2; log = deleted_job job answer ∷ read.log }),
            )
      ]

  succeeded-Controlled :
      (s : State W Call) → Controlled s → Controlled (handle_phase_succeeded client lib snap s).1
  unfolding handle_phase_succeeded
  succeeded-Controlled s h =
      bind-keeps Controlled Controlled (release_snapshot client lib snap) _ s
        (release_snapshot-Controlled s h) (λ _ g. g)
        (λ released. delete_jobs-Controlled released.meta.namespace (job_names released))

  run_pre_snapshot_job-Controlled :
      (job : Job) (s : State W Call)
      → IsControlled job
      → Controlled s
      → Controlled (run_pre_snapshot_job client lib job s).1
  unfolding run_pre_snapshot_job
  run_pre_snapshot_job-Controlled job s controlled h = ground (arith, controlled)

  check_pre_snapshot_job-Controlled :
      (job : Job) (s : State W Call)
      → Controlled s
      → Controlled (check_pre_snapshot_job client lib snap job s).1
  unfolding check_pre_snapshot_job start_snapshot add_complete_finalizer enter_phase
  check_pre_snapshot_job-Controlled job s h = ground arith

  prepare_snapshot-Controlled :
      (s : State W Call) → Controlled s → Controlled (prepare_snapshot client lib snap s).1
  unfolding prepare_snapshot build_pre_snapshot_job
  prepare_snapshot-Controlled s h =
      let build = build_generic_snapshot_job client lib snap pre_snapshot "SNAPSHOT PREPARE;" in
      bind-keeps_result Controlled Controlled build _ s
        (job-Controlled pre_snapshot "SNAPSHOT PREPARE;" s h) (λ _ g. g)
        (λ job s1 e h1.
          bind-keeps Controlled Controlled (run_pre_snapshot_job client lib job) _ s1
            (run_pre_snapshot_job-Controlled job s1
              (job-IsControlled pre_snapshot "SNAPSHOT PREPARE;" s job e) h1)
            (λ _ g. g) check_pre_snapshot_job-Controlled)

  pending-Controlled :
      (s : State W Call) → Controlled s → Controlled (handle_phase_pending client lib snap s).1
  unfolding handle_phase_pending
  pending-Controlled s h = elim (Option-cases snap.spec.volume_snapshot_class_name) [
    | inl none_named ↦ ground (arith, prepare_snapshot-Controlled s)
    | inr (name, named) ↦
        let (class, w1) = client.get_volume_snapshot_class name s.world in
        ground (
          arith,
          prepare_snapshot-Controlled (record { world = w1; log = got_class name class ∷ s.log }),
        )
  ]

  pub handle_phase-Controlled :
      (phase : SnapshotPhase) (s : State W Call)
      → Controlled s
      → Controlled (handle_phase client lib phase snap s).1
  unfolding handle_phase
  handle_phase-Controlled empty s h = empty-Controlled s h
  handle_phase-Controlled pending s h = pending-Controlled s h
  handle_phase-Controlled running s h = running-Controlled s h
  handle_phase-Controlled finalizing s h = finalizing-Controlled s h
  handle_phase-Controlled failed s h = failed-Controlled s h
  handle_phase-Controlled succeeded s h = succeeded-Controlled s h
  handle_phase-Controlled (unknown text) s h = h

-- Who controls is told by the uid.
pub all_controlled-uid :
    (lib : MetaLib) (laws : OwnerLaws lib) (owner owner' : ObjectMeta)
    → owner.uid ≡ owner'.uid
    → (calls : List Call) → all_controlled lib owner calls ≡ true
    → all_controlled lib owner' calls ≡ true
all_controlled-uid lib laws owner owner' e [] h = refl
all_controlled-uid lib laws owner owner' e (call ∷ calls) h =
    elim (Option-cases (created_meta call)) [
      | inl nothing ↦ ground (arith, h, nothing, all_controlled-uid lib laws owner owner' e calls)
      | inr (m, created) ↦
          let same = laws.by_uid owner owner' m e in
          ground (arith, h, created, same, all_controlled-uid lib laws owner owner' e calls)
    ]
