-- ===== src/Registry/Counts.antt =====
-- Counting active admins across one write of the map (countActiveAdminsLocked).
use zakros.Base.{ℕ, ◌+◌, nat_equality, [], ◌∷◌, none, some, ◌≡◌, arith, if◌then◌else◌}
use zakros.Base.Maps.{Map, lookup, insert}
use zakros.Storage.{Uuid}
use zakros.Identity.{Identity}
use zakros.Registry.{is_active_admin, count_active_admins}

abbrev weight : Identity → ℕ
weight i = if is_active_admin i then 1 else 0

pub count-insert_new :
    (k : Uuid) (v : Identity) (m : Map Uuid Identity)
    → lookup k m ≡ none
    → count_active_admins (insert k v m) ≡ count_active_admins m + weight v
unfolding lookup insert count_active_admins
count-insert_new k v [] h = ground arith
count-insert_new k v ((j, w) ∷ m) h = ground (arith, count-insert_new k v m)

pub count-insert_old :
    (k : Uuid) (u v : Identity) (m : Map Uuid Identity)
    → lookup k m ≡ some u
    → count_active_admins (insert k v m) + weight u ≡ count_active_admins m + weight v
unfolding lookup insert count_active_admins
count-insert_old k u v [] h = cc
count-insert_old k u v ((j, w) ∷ m) h = ground (arith, count-insert_old k u v m)
