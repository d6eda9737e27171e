-- ===== src/Minos/Bootstrap.antt =====
-- The seed of the identity registry (minos/core/bootstrap.go, bootstrapIdentities).
pub mod Additions
pub mod Seeding
use zakros.Base.{
  string_equality, nat_equality, String, List, [], ◌∷◌, Option, none, some, ◌||◌, ◌==◌,
  if◌then◌else◌, Result, ok, err,
}
use zakros.Base.Clock.{Time}
use zakros.Storage.{Uuid}
use zakros.Identity.{Role, admin, system, active, Identity, Error, not_found}
use zakros.Registry.{Registry, lookup_by_surface, insert_identity}

-- AdminIdentity and SystemIdentity, with what the registry draws if it inserts it: an identifier, and the
-- reading of its clock.
pub record Seed : Type 0 where
  pub surface : String
  pub surface_id : String
  pub fresh : Uuid
  pub now : Time

pub data BootstrapError : Type 0 where
  incomplete : Role → BootstrapError
  insert_failed lookup_failed : String → String → Error → BootstrapError

abbrev pub seeded : Role → Seed → Identity
seeded role a = record {
  id = 0;
  surface = a.surface;
  surface_id = a.surface_id;
  role = role;
  status = active;
  capabilities_added = [];
  capabilities_removed = [];
  created_at = 0;
  updated_at = 0;
}

-- The body of either loop.
unfoldable pub bootstrap_one : Role → Seed → Registry → Registry × Option BootstrapError
bootstrap_one role a s =
    if a.surface == "" || a.surface_id == ""
    then (s, some (incomplete role))
    else elim (lookup_by_surface a.surface a.surface_id s) [
      | ok i ↦ (s, none)
      | err not_found ↦
          let (v, e) = insert_identity a.now a.fresh (seeded role a) s in
          elim e [ some x ↦ (v, some (insert_failed a.surface a.surface_id x)) | none ↦ (v, none) ]
      | err x ↦ (s, some (lookup_failed a.surface a.surface_id x))
    ]

unfoldable pub bootstrap_each : Role → List Seed → Registry → Registry × Option BootstrapError
unfolding bootstrap_one
bootstrap_each role [] s = (s, none)
bootstrap_each role (a ∷ rest) s =
    let (v, e) = bootstrap_one role a s in
    elim e [ some x ↦ (v, some x) | none ↦ bootstrap_each role rest v ]

unfoldable pub bootstrap_identities :
    List Seed → List Seed → Registry → Registry × Option BootstrapError
unfolding bootstrap_each
bootstrap_identities admins systems s =
    let (v, e) = bootstrap_each admin admins s in
    elim e [ some x ↦ (v, some x) | none ↦ bootstrap_each system systems v ]
