-- ===== src/Dispatch.antt =====
-- The dispatcher's contract (minos/dispatch/dispatch.go): pods that can be spawned, observed and
-- deleted. Dispatch.Builder composes what is spawned.
pub mod Builder
use zakros.Base.{String, List, Option, Bool, true, false, Result}
use zakros.Base.Maps.{Map}

-- `DispatchError` is ErrPodNotFound or any other failure of the cluster.
pub data DispatchError : Type 0 where
  pod_not_found unreachable : DispatchError

-- `Phase` is a text in the source: `unlisted` holds every text but the five phases that it names, as a
-- cluster may answer with one.
pub data Phase : Type 0 where
  unknown pending running succeeded failed : Phase
  unlisted : String → Phase

abbrev pub terminal : Phase → Bool
terminal succeeded = true
terminal failed = true
terminal _ = false

-- No sidecar of the program sets `Env`.
pub record Sidecar : Type 0 where
  pub name : String
  pub image : String

pub record PodSpec : Type 0 where
  pub name : String
  pub namespace : String
  pub labels : Map String String
  pub image : String
  pub envelope : String
  pub plain_env : Map String String
  pub secret_env : Map String String
  pub cpu_request : String
  pub cpu_limit : String
  pub memory_request : String
  pub memory_limit : String
  pub ephemeral_disk : String
  pub sidecars : List Sidecar

-- The methods over the state of a cluster, which is the cluster's own.
pub record Dispatcher (Cluster : Type 0) : Type 0 where
  pub spawn_pod : PodSpec → Cluster → Cluster × Option DispatchError
  pub delete_pod : String → String → Cluster → Cluster × Option DispatchError
  pub pod_phase : String → String → Cluster → Result DispatchError Phase
