-- ===== src/Snapshot/Build/Laws.antt =====
-- What the objects of a snapshot are called, and that they can be built.
use questdb_operator.Prelude.{◌≡◌, String, Option, arith, List, refl}
use questdb_operator.Prelude.Text.{format2, dashed, dashed_lem}
use questdb_operator.Kube.Error.{ok}
use questdb_operator.Kube.Meta.{MetaLib, Owns, object_key}
use questdb_operator.Kube.Exec.{State}
use questdb_operator.Kube.Objects.Workload.{Job, Secret}
use questdb_operator.Kube.Objects.Storage.{VolumeSnapshot}
use questdb_operator.Secrets.{QuestDbSecrets, secrets_of, get_secrets}
use questdb_operator.Snapshot.Calls.{Client, Call}
use questdb_operator.Api.Types.{QuestDbSnapshot}
use questdb_operator.Snapshot.Build.{
  pre_snapshot, post_snapshot, snapshot_job, volume_snapshot, build_generic_snapshot_job,
  build_volume_snapshot,
}

-- The names of the two jobs of a snapshot, which are those that are deleted after success.
pub names-snapshot_job :
    (snap : QuestDbSnapshot) (psql : Option Secret) (prepare complete : String)
    → ((snapshot_job snap psql pre_snapshot prepare).meta.name
        ≡ format2 snap.meta.name "-pre-snapshot")
      × ((snapshot_job snap psql post_snapshot complete).meta.name
          ≡ format2 snap.meta.name "-post-snapshot")
unfolding snapshot_job
names-snapshot_job snap psql prepare complete =
    (dashed_lem snap.meta.name pre_snapshot, dashed_lem snap.meta.name post_snapshot)

-- A job is built if the secrets are usable and it can be owned.
pub built-build_generic_snapshot_job :
    {W : Type 0} (client : Client W) (lib : MetaLib) (owns : Owns lib) (snap : QuestDbSnapshot)
    (suffix command : String) (s : State W Call) (items : List Secret) (secrets : QuestDbSecrets)
    → (client.list_secrets snap.meta.namespace s.world).0 ≡ ok items
    → secrets_of snap.meta.name items ≡ ok secrets
    → (job : Job) × ((build_generic_snapshot_job client lib snap suffix command s).0 ≡ ok job)
      × ((build_generic_snapshot_job client lib snap suffix command s).1.world
          ≡ (client.list_secrets snap.meta.namespace s.world).1)
      × (object_key job.meta
          ≡ record { namespace = snap.meta.namespace; name = dashed snap.meta.name suffix })
unfolding build_generic_snapshot_job get_secrets snapshot_job
built-build_generic_snapshot_job client lib owns snap suffix command s items secrets listed chosen =
    let job = snapshot_job snap secrets.psql_secret suffix command in
    let (meta, owned, same) = owns snap.meta job.meta refl in
    (record job { meta = meta }, ground (arith, owned), ground arith, same)

pub built-build_volume_snapshot :
    (lib : MetaLib) (owns : Owns lib) (snap : QuestDbSnapshot)
    → (v : VolumeSnapshot) × (build_volume_snapshot lib snap ≡ ok v)
      × (object_key v.meta ≡ object_key snap.meta)
unfolding build_volume_snapshot volume_snapshot
built-build_volume_snapshot lib owns snap =
    let v = volume_snapshot snap in
    let (meta, owned, same) = owns snap.meta v.meta refl in
    (record v { meta = meta }, ground (arith, owned), same)
