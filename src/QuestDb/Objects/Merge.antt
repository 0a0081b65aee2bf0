-- ===== src/QuestDb/Objects/Merge.antt =====
-- The five comparisons of `reconcileStatefulSet`, each of which copies a part of the desired object.
use questdb_operator.Prelude.{
  arith, ◌≡◌, refl, sym, ◌∙◌, ◌↔◌, inl, inr, Bool, true, false, not, ◌||◌, Bool-cases, deep_equal,
  deep_equal_iff, if◌then◌else◌,
}
use questdb_operator.Kube.Objects.Pod.{
  StringMap-discrete, TemplateMeta-discrete, Containers-discrete, Volumes-discrete,
  SecurityContext-discrete,
}
use questdb_operator.Kube.Meta.{object_key}
use questdb_operator.Kube.Objects.Workload.{StatefulSet}

-- `if !reflect.DeepEqual(a, d) { a = d; needsUpdate = true }`: the new value, and whether it changed.
pub sync {ℓ} : {A : Type ℓ} → Discrete A → A → A → A × Bool
sync d desired actual =
    if not (deep_equal d actual desired) then (desired, true) else (actual, false)

pub sync_lem {ℓ} :
    {A : Type ℓ} (d : Discrete A) (desired actual : A)
    → ((sync d desired actual).0 ≡ desired)
      × (((sync d desired actual).1 ≡ false) ↔ (actual ≡ desired))
unfolding sync
sync_lem d desired actual = elim (Bool-cases (deep_equal d actual desired)) [
  | inl same ↦ rw same (
    (deep_equal_iff d actual desired).0 same,
    (λ _. (deep_equal_iff d actual desired).0 same, λ _. refl),
  )
  | inr differ ↦
      rw differ (refl, (λ e. cc, λ e. cc (differ, (deep_equal_iff d actual desired).1 e)))
]

pub merge_stateful_set : StatefulSet → StatefulSet → StatefulSet × Bool
merge_stateful_set desired actual =
    let (annotations, b₁) =
      sync StringMap-discrete desired.meta.annotations actual.meta.annotations in
    let (template_meta, b₂) = sync TemplateMeta-discrete d.meta a.meta in
    let (containers, b₃) = sync Containers-discrete d.spec.containers a.spec.containers in
    let (volumes, b₄) = sync Volumes-discrete d.spec.volumes a.spec.volumes in
    let (security_context, b₅) =
      sync SecurityContext-discrete d.spec.security_context a.spec.security_context in
    (
      record actual {
        meta = record actual.meta { annotations = annotations };
        spec = record actual.spec {
          template = record {
            meta = template_meta;
            spec = record a.spec {
              containers = containers;
              volumes = volumes;
              security_context = security_context;
            };
          };
        };
      },
      b₁ || b₂ || b₃ || b₄ || b₅,
    )
  where
    open desired.spec use {template as d}
    open actual.spec use {template as a}

-- The parts that the controller manages.
pub record SameManaged (a b : StatefulSet) : Type 0 where
  pub annotations : a.meta.annotations ≡ b.meta.annotations
  pub template_meta : a.spec.template.meta ≡ b.spec.template.meta
  pub containers : a.spec.template.spec.containers ≡ b.spec.template.spec.containers
  pub volumes : a.spec.template.spec.volumes ≡ b.spec.template.spec.volumes
  pub security_context :
      a.spec.template.spec.security_context ≡ b.spec.template.spec.security_context

-- The parts of the template that it sets at creation and leaves alone afterwards.
pub record SameRest (a b : StatefulSet) : Type 0 where
  pub labels : a.meta.labels ≡ b.meta.labels
  pub finalizers : a.meta.finalizers ≡ b.meta.finalizers
  pub owner_references : a.meta.owner_references ≡ b.meta.owner_references
  pub selector : a.spec.selector ≡ b.spec.selector
  pub replicas : a.spec.replicas ≡ b.spec.replicas
  pub affinity : a.spec.template.spec.affinity ≡ b.spec.template.spec.affinity
  pub node_selector : a.spec.template.spec.node_selector ≡ b.spec.template.spec.node_selector
  pub tolerations : a.spec.template.spec.tolerations ≡ b.spec.template.spec.tolerations
  pub image_pull_secrets :
      a.spec.template.spec.image_pull_secrets ≡ b.spec.template.spec.image_pull_secrets
  pub ready_replicas : a.ready_replicas ≡ b.ready_replicas

none_changed :
    (b₁ b₂ b₃ b₄ b₅ : Bool)
    → ((b₁ || b₂ || b₃ || b₄ || b₅) ≡ false)
      ↔ ((b₁ ≡ false) × (b₂ ≡ false) × (b₃ ≡ false) × (b₄ ≡ false) × (b₅ ≡ false))
none_changed b₁ b₂ b₃ b₄ b₅ = (λ e. ground arith, λ p. ground arith)

module _ (desired actual : StatefulSet) where
  abbrev merged : StatefulSet
  merged = (merge_stateful_set desired actual).0

  merged-SameManaged : SameManaged merged desired
  unfolding merge_stateful_set
  merged-SameManaged = record {
    annotations = (sync_lem StringMap-discrete desired.meta.annotations actual.meta.annotations).0;
    template_meta =
        (sync_lem TemplateMeta-discrete desired.spec.template.meta actual.spec.template.meta).0;
    containers = (sync_lem Containers-discrete d.containers a.containers).0;
    volumes = (sync_lem Volumes-discrete d.volumes a.volumes).0;
    security_context = (sync_lem SecurityContext-discrete d.security_context a.security_context).0;
  }
    where
      open desired.spec.template use {spec as d}
      open actual.spec.template use {spec as a}

  merged-SameRest : SameRest merged actual
  unfolding merge_stateful_set
  merged-SameRest = record {
    labels = refl;
    finalizers = refl;
    owner_references = refl;
    selector = refl;
    replicas = refl;
    affinity = refl;
    node_selector = refl;
    tolerations = refl;
    image_pull_secrets = refl;
    ready_replicas = refl;
  }

  needs_update_iff : ((merge_stateful_set desired actual).1 ≡ false) ↔ SameManaged actual desired
  unfolding merge_stateful_set
  needs_update_iff =
      let annotations =
        sync_lem StringMap-discrete desired.meta.annotations actual.meta.annotations in
      let template_meta =
        sync_lem TemplateMeta-discrete desired.spec.template.meta actual.spec.template.meta in
      let containers = sync_lem Containers-discrete d.containers a.containers in
      let volumes = sync_lem Volumes-discrete d.volumes a.volumes in
      let security = sync_lem SecurityContext-discrete d.security_context a.security_context in
      (
        λ e.
            let same = (none_changed _ _ _ _ _).0 e in
            record {
              annotations = annotations.1.0 same.0;
              template_meta = template_meta.1.0 same.1;
              containers = containers.1.0 same.2;
              volumes = volumes.1.0 same.3;
              security_context = security.1.0 same.4;
            },
        λ m. (none_changed _ _ _ _ _).1 (
          annotations.1.1 m.annotations,
          template_meta.1.1 m.template_meta,
          containers.1.1 m.containers,
          volumes.1.1 m.volumes,
          security.1.1 m.security_context,
        ),
      )
    where
      open desired.spec.template use {spec as d}
      open actual.spec.template use {spec as a}

-- Bringing a stateful set up to date makes its annotations and the metadata, containers, volumes
-- and security context of its template the desired ones; leaves its labels, finalizers, owners,
-- selector, replicas and status and the affinity, node selector, tolerations and pull secrets of
-- its template; asks for an update exactly when a part of the first kind differed; and asks for
-- none in a second round.
pub merge_stateful_set_lem :
    (desired actual : StatefulSet)
    → let (merged, needs_update) = merge_stateful_set desired actual in
      SameManaged merged desired
      × SameRest merged actual
      × ((needs_update ≡ false) ↔ SameManaged actual desired)
      × ((merge_stateful_set desired merged).1 ≡ false)
merge_stateful_set_lem desired actual = (
  merged-SameManaged desired actual,
  merged-SameRest desired actual,
  needs_update_iff desired actual,
  (needs_update_iff desired (merged desired actual)).1 (merged-SameManaged desired actual),
)

-- An object differs from itself in nothing.
pub merge_stateful_set_self : (a : StatefulSet) → (merge_stateful_set a a).1 ≡ false
merge_stateful_set_self a = (needs_update_iff a a).1 (record {
  annotations = refl;
  template_meta = refl;
  containers = refl;
  volumes = refl;
  security_context = refl;
})

pub object_key-merge_stateful_set :
    (desired actual : StatefulSet)
    → object_key (merge_stateful_set desired actual).0.meta ≡ object_key actual.meta
unfolding merge_stateful_set
object_key-merge_stateful_set desired actual = refl

-- Without a difference nothing is copied.
pub merge_stateful_set_unchanged :
    (desired actual : StatefulSet)
    → (merge_stateful_set desired actual).1 ≡ false
    → (merge_stateful_set desired actual).0 ≡ actual
unfolding merge_stateful_set
merge_stateful_set_unchanged desired actual e =
    let old = (needs_update_iff desired actual).0 e in
    let new = merged-SameManaged desired actual in
    let annotations = new.annotations ∙ sym old.annotations in
    let template_meta = new.template_meta ∙ sym old.template_meta in
    let containers = new.containers ∙ sym old.containers in
    let volumes = new.volumes ∙ sym old.volumes in
    let security_context = new.security_context ∙ sym old.security_context in
    λ i. record actual {
      meta = record actual.meta { annotations = annotations i };
      spec = record actual.spec {
        template = record {
          meta = template_meta i;
          spec = record actual.spec.template.spec {
            containers = containers i;
            volumes = volumes i;
            security_context = security_context i;
          };
        };
      };
    }
