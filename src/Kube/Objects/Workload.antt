-- ===== src/Kube/Objects/Workload.antt =====
-- Stateful sets, jobs, services, config maps and secrets.
use questdb_operator.Prelude.{ℕ, String, List}
use questdb_operator.Prelude.Int.{ℤ}
use questdb_operator.Kube.Meta.{ObjectMeta, StringMap}
use questdb_operator.Kube.Objects.Pod.{PodTemplateSpec}

pub record StatefulSetSpec : Type 0 where
  pub service_name : String
  pub replicas : ℤ
  pub selector : StringMap
  pub template : PodTemplateSpec

-- `ready_replicas` is an `int32` of the status.
pub record StatefulSet : Type 0 where
  pub meta : ObjectMeta
  pub spec : StatefulSetSpec
  pub ready_replicas : ℤ

pub record JobSpec : Type 0 where
  pub completions : ℤ
  pub backoff_limit : ℤ
  pub template : PodTemplateSpec

pub record JobStatus : Type 0 where
  pub succeeded : ℤ
  pub failed : ℤ

pub record Job : Type 0 where
  pub meta : ObjectMeta
  pub spec : JobSpec
  pub status : JobStatus

pub record ServicePort : Type 0 where
  pub name : String
  pub port : ℕ

pub record Service : Type 0 where
  pub meta : ObjectMeta
  pub ports : List ServicePort
  pub selector : StringMap

-- The contents are bytes.
pub record ConfigMap : Type 0 where
  pub meta : ObjectMeta
  pub contents : List (String × List ℕ)

pub record Secret : Type 0 where
  pub meta : ObjectMeta
  pub contents : StringMap
