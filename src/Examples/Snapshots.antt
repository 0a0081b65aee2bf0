-- ===== src/Examples/Snapshots.antt =====
-- A server that holds one snapshot with its objects, and where others do the jobs.
use questdb_operator.Prelude.{
  ◌≡◌, ◌⊎◌, inl, inr, refl, true, false, Bool, String, Option, none, some, [], ◌==◌, if◌then◌else◌,
  arith,
}
use questdb_operator.Prelude.Int.{pos}
use questdb_operator.Prelude.Text.{dashed}
use questdb_operator.Kube.Error.{Result, ok, err, already_exists, not_found}
use questdb_operator.Kube.Meta.{NamespacedName, Owns, new_meta, object_key}
use questdb_operator.Kube.Objects.Workload.{Job}
use questdb_operator.Kube.Objects.Storage.{VolumeSnapshot}
use questdb_operator.Secrets.{no_secrets}
use questdb_operator.Secrets.Laws.{secrets_of-nil}
use questdb_operator.Api.Types.{
  QuestDbSnapshot, SnapshotPhase, empty, pending, running, finalizing, failed, succeeded, unknown,
}
use questdb_operator.Snapshot.Build.{pre_snapshot, post_snapshot}
use questdb_operator.Snapshot.Calls.{Client}
use questdb_operator.Snapshot.Phases.Progress.{
  Scene, AddsOnly, Cooperates, IsAwaited, IsAbsent, Has, IsDone, IsVolumeReady, new_job, new_volume,
}
use questdb_operator.Snapshot.Reconcile.Success.{
  run, Works, IsSettled, SucceedsWithin, reconcile-succeeds,
}
use questdb_operator.Examples.Data.{meta_lib, questdb_of, snapshot_in}

abbrev found : {T : Type 0} → Option T → Scene → Result T × Scene
found none c = (err not_found, c)
found (some t) c = (ok t, c)

-- Where nothing is, the object is stored; where one is, that is refused.
abbrev create : {T : Type 0} → Option T → T → (T → Scene) → Scene → Result T × Scene
create none t place c = (ok t, place t)
create (some old) t place c = (err already_exists, c)

abbrev pre_name : String → String → Bool
pre_name name n = n == dashed name pre_snapshot

-- The jobs have their names from that of the snapshot.
abbrev create_job : String → NamespacedName → Job → Scene → Result Job × Scene
create_job name ns job c =
    if pre_name name ns.name
    then create c.pre_job (new_job job) (λ j. record c { pre_job = some j }) c
    else create c.post_job (new_job job) (λ j. record c { post_job = some j }) c

abbrev get_job : String → NamespacedName → Scene → Result Job × Scene
get_job name ns c = if pre_name name ns.name then found c.pre_job c else found c.post_job c

abbrev pub memory : String → Client Scene
memory name = record {
  get_snapshot = λ ns c. (ok c.snapshot, c);
  update_snapshot = λ s c. (ok s, record c { snapshot = s });
  update_snapshot_status = λ s c. (ok s, record c { snapshot = s });
  get_questdb = λ ns c. (ok (questdb_of 10), c);
  get_volume_snapshot_class = λ class c. (ok (record { meta = new_meta class "" none }), c);
  list_secrets = λ ns c. (ok [], c);
  create_job = λ job c. create_job name (object_key job.meta) job c;
  get_job = λ ns c. get_job name ns c;
  delete_job = λ job c. (ok tt, c);
  create_volume_snapshot =
      λ v c. create c.volume (new_volume v) (λ v. record c { volume = some v }) c;
  get_volume_snapshot = λ ns c. found c.volume c;
}

abbrev pub key_of : String → NamespacedName
key_of name = record { namespace = "prod"; name = name }

pub memory-Cooperates :
    (name : String)
    → pre_name name (dashed name pre_snapshot) ≡ true
    → pre_name name (dashed name post_snapshot) ≡ false
    → Cooperates (memory name) (key_of name) (λ c. c)
memory-Cooperates name pre post = record {
  read = λ c. refl;
  read_scene = λ c. refl;
  update = λ snap m c e k. (refl, refl);
  status = λ snap p c e k. (refl, refl);
  questdb = λ ns c. (questdb_of 10, refl);
  questdb_scene = λ ns c. refl;
  class = λ class c. (record { meta = new_meta class "" none }, refl);
  class_scene = λ class c. refl;
  secrets = λ ns name c. ([], no_secrets, refl, secrets_of-nil name);
  secrets_scene = λ ns c. refl;
  pre_jobs = record {
    made = λ t c k e. ground (arith, pre, k, e);
    refused = λ t old c k e. ground (arith, pre, k, e);
    got = λ old c e. ground (arith, pre, e);
  };
  post_jobs = record {
    made = λ t c k e. ground (arith, post, k, e);
    refused = λ t old c k e. ground (arith, post, k, e);
    got = λ old c e. ground (arith, post, e);
  };
  volumes = record {
    made = λ t c k e. ground (arith, e);
    refused = λ t old c k e. ground (arith, e);
    got = λ old c e. ground (arith, e);
  };
}

-- The jobs are done, and the volume snapshot gets ready.
abbrev done : Option Job → Option Job
done none = none
done (some job) = some (record job { status = record { succeeded = pos 1; failed = pos 0 } })

abbrev ready : Option VolumeSnapshot → Option VolumeSnapshot
ready none = none
ready (some v) = some (record v { status = some (record { ready_to_use = some true }) })

abbrev pub work : Scene → Scene
work c = record c { pre_job = done c.pre_job; volume = ready c.volume; post_job = done c.post_job }

done-cases : (o : Option Job) → Has IsDone (done o) ⊎ ((o ≡ none) × (done o ≡ none))
done-cases none = inr (refl, refl)
done-cases (some job) = inl (_, refl, (refl, refl))

ready-cases :
    (o : Option VolumeSnapshot) → Has IsVolumeReady (ready o) ⊎ ((o ≡ none) × (ready o ≡ none))
ready-cases none = inr (refl, refl)
ready-cases (some v) = inl (_, refl, refl)

pub work-Works : (c : Scene) → Works c (work c)
work-Works c = record { snapshot = refl; finished = finished }
  where
    finished : (p : SnapshotPhase) → IsAwaited p (work c) ⊎ (IsAbsent p c × IsAbsent p (work c))
    finished pending = done-cases c.pre_job
    finished running = ready-cases c.volume
    finished finalizing = done-cases c.post_job
    finished empty = inl tt
    finished failed = inl tt
    finished succeeded = inl tt
    finished (unknown text) = inl tt

pub meta_lib-Owns : Owns meta_lib
meta_lib-Owns owner m e = (_, refl, refl)

pub meta_lib-AddsOnly : AddsOnly meta_lib
meta_lib-AddsOnly m f = (refl, refl)

-- A snapshot without objects.
abbrev pub bare : QuestDbSnapshot → Scene
bare snap = record { snapshot = snap; pre_job = none; volume = none; post_job = none }

pub bare-IsSettled : (snap : QuestDbSnapshot) → IsSettled (bare snap)
bare-IsSettled snap pending = inr refl
bare-IsSettled snap running = inr refl
bare-IsSettled snap finalizing = inr refl
bare-IsSettled snap empty = inl tt
bare-IsSettled snap failed = inl tt
bare-IsSettled snap succeeded = inl tt
bare-IsSettled snap (unknown text) = inl tt

reconcile-succeeds_example :
    SucceedsWithin
      (λ c. c)
      (λ c. work (run (memory "snap") meta_lib (key_of "snap") c))
      7
      (bare (snapshot_in empty))
reconcile-succeeds_example =
    reconcile-succeeds (memory "snap") meta_lib (key_of "snap") (λ c. c)
      (memory-Cooperates "snap" refl refl) meta_lib-Owns meta_lib-AddsOnly 5 (omega arith) work
      work-Works (bare (snapshot_in empty))
      (record { at = refl; limit = refl; kept = refl; named = refl })
      (bare-IsSettled (snapshot_in empty))
