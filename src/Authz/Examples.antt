-- ===== src/Authz/Examples.antt =====
-- The cache of permissions at concrete requests.
use cloud_agent_platform.Base.{String, true, false, [], ◌∷◌, ◌≡◌, ◌⊎◌, refl}
use cloud_agent_platform.Authz.{
  Role, agent, other, exec, task, Request, Authz, is_admin, cache_key, table_allows,
  check_permission,
}
use cloud_agent_platform.Authz.Cache.{run, check_permission_lem}

abbrev fresh : Authz
fresh = record { cache_ttl = 300; perm_cache = [] }

abbrev running : String → Role → Request
running subject role = record { subject = subject; role = role; action = exec; resource = task }

check_permission_lem_example :
    (is_admin agent ≡ true)
    ⊎ ((p : Request) × (cache_key p ≡ cache_key (running "s1" agent)) × (table_allows p ≡ true))
unfolding run check_permission
check_permission_lem_example =
    check_permission_lem (running "s1" agent ∷ []) (running "s1" agent) fresh refl refl

-- The keys of different requests can be the same: the second is let through by the entry of the first.
shared_key :
    (check_permission
      (running "a" (other "user:agent"))
      (run (running "a:user" agent ∷ []) fresh)).1
    ≡ true
unfolding run check_permission
shared_key = refl

without_cache : (check_permission (running "a" (other "user:agent")) fresh).1 ≡ false
unfolding check_permission
without_cache = refl
