-- ===== src/Dao/Host.antt =====
-- src/quads/server/dao/host.py
pub mod Names
use quads.Base.{ℕ, String, Bool, Option, none, some, List, str_eq, first, select, any, last?}
use quads.Models.{Host, Db}

unfoldable pub get_host : Db → String → Option Host
get_host db hostname = first (λ h. str_eq h.name hostname) db.hosts

abbrev pub contains : List String → String → Bool
contains names name = any (λ n. str_eq n name) names

-- The dictionary from names to hosts; of two hosts with one name the later row stays.
unfoldable pub get_hosts_for_update : Db → List String → List Host
get_hosts_for_update db hostnames = select (λ h. contains hostnames h.name) db.hosts

abbrev pub host_map_get : List Host → String → Option Host
host_map_get hosts hostname = last? (select (λ h. str_eq h.name hostname) hosts)
