-- ===== src/Dao/Vlan.antt =====
-- src/quads/server/dao/vlan.py
use quads.Base.{ℕ, not, ◌&&◌, Option, List, ◌==◌, first, select, any}
use quads.Models.{Vlan, Db}
use quads.Dao.Cloud.{refers_to}

unfoldable pub get_vlan : Db → ℕ → Option Vlan
get_vlan db vlan_id = first (λ v. v.vlan_id == vlan_id) db.vlans

-- The VLANs that no active assignment holds.
unfoldable pub get_free_vlans : Db → List Vlan
get_free_vlans db =
    select (λ v. not (any (λ a. a.active && refers_to v.id a.vlan_id) db.assignments)) db.vlans
