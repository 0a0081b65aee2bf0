-- ===== src/QuestDb/Build/Pods/Laws.antt =====
-- The pods that are built can run, and the service and the selector find them.
use mathlib.Core.List.{Memᴰ}
use questdb_operator.Prelude.{
  arith, String, ◌≡◌, refl, Option, none, some, List, [], ◌∷◌, ◌++◌, map, All, All-append, All-mono,
}
use questdb_operator.Kube.Error.{ok}
use questdb_operator.Kube.Meta.{MetaLib, Owns, object_key}
use questdb_operator.Kube.Objects.Pod.{Volume, VolumeMount, persistent_volume_claim, config_map}
use questdb_operator.Kube.Objects.Workload.{StatefulSet, Service, Secret}
use questdb_operator.Api.Types.{QuestDb, QuestDbStatus}
use questdb_operator.Secrets.{QuestDbSecrets}
use questdb_operator.QuestDb.Build.Pods.{
  build_stateful_set, build_service, container_ports, ilp_mounts, ilp_volumes, volume_mounts,
  volumes, stateful_set, service_object,
}

abbrev pub names : List Volume → List String
names = map (λ v. v.name)

-- The mount names a volume of the list.
abbrev pub IsBacked : List Volume → VolumeMount → Type 0
IsBacked vs m = Memᴰ m.name (names vs)

Mem-append_left : {x : String} (xs ys : List Volume) → Memᴰ x (names xs) → Memᴰ x (names (xs ++ ys))
Mem-append_left [] ys m = elim m [ ]
Mem-append_left (v ∷ xs) ys (Memᴰ.head p) = Memᴰ.head p
Mem-append_left (v ∷ xs) ys (Memᴰ.tail m) = Memᴰ.tail (Mem-append_left xs ys m)

Mem-append_right :
    {x : String} (xs ys : List Volume) → Memᴰ x (names ys) → Memᴰ x (names (xs ++ ys))
Mem-append_right [] ys m = m
Mem-append_right (v ∷ xs) ys m = Memᴰ.tail (Mem-append_right xs ys m)

ilp_mounts-IsBacked : (o : Option Secret) → All (IsBacked (ilp_volumes o)) (ilp_mounts o)
ilp_mounts-IsBacked none = tt
ilp_mounts-IsBacked (some s) = (Memᴰ.head refl, tt)

-- Every mount of the container names a volume of the pod, if each extra mount names an extra volume
-- or one of the operator's two.
pub volume_mounts-IsBacked :
    (q : QuestDb) (s : QuestDbSecrets)
    → All
        (λ m. Memᴰ m.name ("data" ∷ "config" ∷ names q.spec.extra_volumes))
        q.spec.extra_volume_mounts
    → All (IsBacked (volumes q s)) (volume_mounts q s)
unfolding volume_mounts volumes
volume_mounts-IsBacked q s h =
    let own : List Volume =
      record { name = "data"; source = persistent_volume_claim q.meta.name }
      ∷ record { name = "config"; source = config_map q.meta.name 0o420 }
      ∷ q.spec.extra_volumes in
    let ilp : List Volume = ilp_volumes s.ilp_secret in
    let Backed : VolumeMount → Type 0 = IsBacked (own ++ ilp) in
    All-append Backed
      (record { name = "data"; mount_path = "/var/lib/questdb/db"; options = none }
        ∷ record { name = "config"; mount_path = "/var/lib/questdb/conf"; options = none }
        ∷ q.spec.extra_volume_mounts)
      (ilp_mounts s.ilp_secret)
      (
        Memᴰ.head refl,
        (
          Memᴰ.tail (Memᴰ.head refl),
          All-mono (IsBacked own) Backed q.spec.extra_volume_mounts
              (λ m k. Mem-append_left own ilp k) h,
        ),
      )
      (All-mono (IsBacked ilp) Backed (ilp_mounts s.ilp_secret) (λ m k. Mem-append_right own ilp k)
        (ilp_mounts-IsBacked s.ilp_secret))

-- The pods of the stateful set carry the labels that the stateful set and the service select, and
-- the port numbers of the service are those of every container.
pub stateful_set-IsServed :
    (q : QuestDb) (s : QuestDbSecrets)
    → ((stateful_set q s).spec.template.meta.labels ≡ (stateful_set q s).spec.selector)
      × (((service_object q).selector ≡ (stateful_set q s).spec.template.meta.labels)
          × All
              (λ c.
                map (λ p. p.container_port) c.ports ≡ map (λ p. p.port) (service_object q).ports)
              (stateful_set q s).spec.template.spec.containers)
unfolding stateful_set service_object container_ports
stateful_set-IsServed q s = (refl, (refl, (refl, tt)))

-- The objects do not depend on the status of the database, and their owner does not change by what
-- they are found.
module _ (lib : MetaLib) (q : QuestDb) (s : QuestDbSecrets) where
  pub build_stateful_set_status :
      (status : QuestDbStatus)
      → build_stateful_set lib (record q { status = status }) s ≡ build_stateful_set lib q s
  unfolding build_stateful_set stateful_set volumes volume_mounts
  build_stateful_set_status status = refl

  pub build_service_status :
      (status : QuestDbStatus)
      → build_service lib (record q { status = status }) ≡ build_service lib q
  unfolding build_service service_object
  build_service_status status = refl

  pub build_stateful_set_owned :
      Owns lib
      → (t : StatefulSet) × (build_stateful_set lib q s ≡ ok t)
        × (object_key t.meta ≡ object_key q.meta)
  unfolding build_stateful_set stateful_set
  build_stateful_set_owned owns =
      let (meta, owned, key) = owns q.meta (stateful_set q s).meta refl in
      (record (stateful_set q s) { meta = meta }, ground (arith, owned), key)

  pub build_service_owned :
      Owns lib
      → (t : Service) × (build_service lib q ≡ ok t) × (object_key t.meta ≡ object_key q.meta)
  unfolding build_service service_object
  build_service_owned owns =
      let (meta, owned, key) = owns q.meta (service_object q).meta refl in
      (record (service_object q) { meta = meta }, ground (arith, owned), key)
