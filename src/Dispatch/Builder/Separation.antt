-- ===== src/Dispatch/Builder/Separation.antt =====
-- What of a pod specification depends on secrets (minos/dispatch/builder.go).
use zakros.Base.{String, Option, none, some, ◌≡◌, ok, arith}
use zakros.Dispatch.{PodSpec}
use zakros.Dispatch.Builder.{Encoder, BuilderInput, build_pod_spec, pod_name_of}

-- The parts of a specification that hold neither the credentials nor the envelope.
pub record SameButSecrets (a b : PodSpec) : Type 0 where
  pub name : a.name ≡ b.name
  pub namespace : a.namespace ≡ b.namespace
  pub labels : a.labels ≡ b.labels
  pub image : a.image ≡ b.image
  pub plain_env : a.plain_env ≡ b.plain_env
  pub cpu_request : a.cpu_request ≡ b.cpu_request
  pub cpu_limit : a.cpu_limit ≡ b.cpu_limit
  pub memory_request : a.memory_request ≡ b.memory_request
  pub memory_limit : a.memory_limit ≡ b.memory_limit
  pub ephemeral_disk : a.ephemeral_disk ≡ b.ephemeral_disk
  pub sidecars : a.sidecars ≡ b.sidecars

pub build_pod_spec-name :
    (c : Encoder) (resolve : String → Option String) (input : BuilderInput) (spec : PodSpec)
    → build_pod_spec c resolve input ≡ ok spec
    → spec.name ≡ pod_name_of c input.task_id input.run_id
unfolding build_pod_spec
build_pod_spec-name c resolve input spec h = ground arith

-- The same input with another bearer token in its envelope.
abbrev pub with_token : String → BuilderInput → BuilderInput
with_token tok input = record input {
  envelope = elim input.envelope [
    | none ↦ none
    | some e ↦ some (record e { capabilities = record e.capabilities { mcp_auth_token = tok } })
  ];
}

-- The text of the envelope.
abbrev pub marshalled : Encoder → BuilderInput → Option String
marshalled c input = elim input.envelope [ none ↦ none | some e ↦ c.marshal e ]

-- Two specifications of one task that differ in the bearer token of the envelope and in what the provider
-- answered agree in everything but the envelope and the secret environment, and the envelope is the
-- marshalled one, which does not depend on the provider: no answer of the provider reaches the envelope,
-- and neither such an answer nor the token reaches the labels, the plain environment or another field.
pub build_pod_spec-SameButSecrets :
    (c : Encoder) (resolve resolve' : String → Option String) (tok : String) (input : BuilderInput)
    (a b : PodSpec)
    → build_pod_spec c resolve input ≡ ok a
    → build_pod_spec c resolve' (with_token tok input) ≡ ok b
    → SameButSecrets a b
      × (marshalled c input ≡ some a.envelope)
      × (marshalled c (with_token tok input) ≡ some b.envelope)
unfolding build_pod_spec
build_pod_spec-SameButSecrets c resolve resolve' tok input a b h k = (
  record {
    name = ground arith;
    namespace = ground arith;
    labels = ground arith;
    image = ground arith;
    plain_env = ground arith;
    cpu_request = ground arith;
    cpu_limit = ground arith;
    memory_request = ground arith;
    memory_limit = ground arith;
    ephemeral_disk = ground arith;
    sidecars = ground arith;
  },
  ground arith,
  ground arith,
)
