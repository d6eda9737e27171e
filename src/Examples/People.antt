-- ===== src/Examples/People.antt =====
-- The identity registry at work.
use zakros.Base.{nat_equality, string_equality, String, List, [], ◌∷◌, some, true, ◌≡◌, refl}
use zakros.Base.Maps.{lookup}
use zakros.Storage.{Uuid}
use zakros.Identity.{
  Identity, Role, admin, observer, active, revoked, contains, role_capabilities, has_capability,
  task_direct, identity_manage, PairingRequest, last_admin,
}
use zakros.Registry.{Registry, Call, inserts, sets_role, revokes, adds, count_active_admins, revoke}

abbrev person : Uuid → String → Role → Identity
person id name role = record {
  id = id;
  surface = "discord";
  surface_id = name;
  role = role;
  status = active;
  capabilities_added = [];
  capabilities_removed = [];
  created_at = 5;
  updated_at = 5;
}

abbrev ann : Identity
ann = person 1 "ann" admin

abbrev bob : Identity
bob = person 2 "bob" observer

abbrev team : Registry
team = record { identities = (1, ann) ∷ (2, bob) ∷ []; pairings = [] }

abbrev moves : List Call
moves =
    revokes 1 10
    ∷ sets_role 1 observer 11
    ∷ adds 2 task_direct 12
    ∷ inserts 13 7 (person 0 "eve" admin)
    ∷ revokes 1 14
    ∷ []

revoke_last : (revoke 1 10 team).1 ≡ some last_admin
unfolding revoke lookup count_active_admins
revoke_last = refl

ann_manages : has_capability identity_manage (some ann) ≡ true
unfolding has_capability contains role_capabilities
ann_manages = refl

bob_found : lookup 2 team.identities ≡ some bob
unfolding lookup
bob_found = refl

abbrev former : Registry
former = record { identities = (1, ann) ∷ (2, record bob { status = revoked }) ∷ []; pairings = [] }

abbrev request : PairingRequest
request = record {
  token = "T1";
  surface = "discord";
  surface_id = "cy";
  note = "";
  created_at = 0;
  expires_at = 100;
}

abbrev waiting : Registry
waiting = record team {
  pairings = ("T1", request) ∷ ("T2", record request { token = "T2"; expires_at = 900 }) ∷ [];
}
