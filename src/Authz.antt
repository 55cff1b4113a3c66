-- ===== src/Authz.antt =====
-- internal/authz/authz.go: the permissions of the roles, with their cache, the API keys and the scopes.
-- The hash of an API key is a parameter. The tokens, which a JWT library signs and parses, and the
-- interceptor are left out.
pub mod Cache
mod Examples
use cloud_agent_platform.Base.{
  ℕ, String, Bool, true, false, ◌&&◌, ◌||◌, Option, none, some, List, [], ◌∷◌, ◌==◌,
  string_comparable, nat_beq, ltb, if◌then◌else◌, contains,
}
use Prim.Native.String.{◌++◌ as str_append, len}
use cloud_agent_platform.Base.Int64.{slt, sle}
use cloud_agent_platform.Base.Text.{split}

-- `Role` is a string; `other` is one that is no constant.
pub data Role : Type 0 where
  admin user agent : Role
  other : String → Role

pub data Resource : Type 0 where
  task session agent_resource template context audit_log config : Resource

pub data Action : Type 0 where
  read write delete exec administer : Action

abbrev pub role_to_string : Role → String
role_to_string admin = "admin"
role_to_string user = "user"
role_to_string agent = "agent"
role_to_string (other s) = s

abbrev pub resource_to_string : Resource → String
resource_to_string task = "task"
resource_to_string session = "session"
resource_to_string agent_resource = "agent"
resource_to_string template = "template"
resource_to_string context = "context"
resource_to_string audit_log = "auditlog"
resource_to_string config = "config"

abbrev pub action_to_string : Action → String
action_to_string read = "read"
action_to_string write = "write"
action_to_string delete = "delete"
action_to_string exec = "exec"
action_to_string administer = "admin"

pub record Permission : Type 0 where
  pub action : Action
  pub resource : Resource

abbrev pub may : Action → Resource → Permission
may a r = record { action = a; resource = r }

unfoldable pub get_role_permissions : Role → List Permission
get_role_permissions admin =
    may read task
    ∷ may write task
    ∷ may delete task
    ∷ may exec task
    ∷ may read session
    ∷ may write session
    ∷ may delete session
    ∷ may read agent_resource
    ∷ may write agent_resource
    ∷ may delete agent_resource
    ∷ may read template
    ∷ may write template
    ∷ may delete template
    ∷ may read context
    ∷ may write context
    ∷ may delete context
    ∷ may read audit_log
    ∷ may administer config
    ∷ []
get_role_permissions user =
    may read task
    ∷ may write task
    ∷ may read session
    ∷ may write session
    ∷ may read agent_resource
    ∷ may read template
    ∷ may read context
    ∷ may write context
    ∷ []
get_role_permissions agent =
    may read task
    ∷ may write task
    ∷ may exec task
    ∷ may read session
    ∷ may write session
    ∷ may read context
    ∷ may write context
    ∷ []
get_role_permissions (other s) = []

-- The loop over the permissions.
unfoldable pub grants : Action → Resource → List Permission → Bool
grants a r [] = false
grants a r (p ∷ ps) =
    (action_to_string p.action == action_to_string a
      && resource_to_string p.resource == resource_to_string r)
    || grants a r ps

-- The arguments of `CheckPermission`.
pub record Request : Type 0 where
  pub subject : String
  pub role : Role
  pub action : Action
  pub resource : Resource

unfoldable pub cache_key : Request → String
cache_key q = str_append q.subject (
    str_append ":" (
      str_append (role_to_string q.role) (
        str_append ":" (
          str_append (action_to_string q.action)
            (str_append ":" (resource_to_string q.resource))))))

abbrev pub is_admin : Role → Bool
is_admin admin = true
is_admin _ = false

-- `cache_ttl` is a duration; the cache holds the keys that were allowed.
pub record Authz : Type 0 where
  pub cache_ttl : ℕ
  pub perm_cache : List String

unfoldable pub table_allows : Request → Bool
unfolding get_role_permissions grants
table_allows q = grants q.action q.resource (get_role_permissions q.role)

unfoldable pub cached : Request → Authz → Bool
unfolding cache_key contains
cached q a = slt 0 a.cache_ttl && contains (cache_key q) a.perm_cache

-- `true` is no error.
unfoldable pub check_permission : Request → Authz → Authz × Bool
unfolding table_allows cached cache_key
check_permission q a =
    if is_admin q.role
    then (a, true)
    else if cached q a
    then (a, true)
    else if table_allows q
    then (
      (if slt 0 a.cache_ttl then record a { perm_cache = cache_key q ∷ a.perm_cache } else a),
      true,
    )
    else (a, false)

-- `HasScope` and `ShouldRefresh`, on the fields of the claims.
unfoldable pub has_scope : String → (scopes : String) → Bool
unfolding contains split
has_scope scope scopes = if scopes == "" then false else contains scope (split scopes " ")

unfoldable pub should_refresh : (now refresh_at : ℕ) → Bool
should_refresh now refresh_at = if nat_beq refresh_at 0 then false else sle refresh_at now

pub record ApiKeyMeta : Type 0 where
  pub key_id : String
  pub secret : String
  pub role : Role
  pub scopes : List String
  pub issued_at : ℕ
  pub expires_at : ℕ

pub data ApiKeyResult : Type 0 where
  valid_key : ApiKeyMeta → ApiKeyResult
  invalid_key key_expired : ApiKeyResult

-- The map `APIKeys`, by hash; the newest entry of a hash comes first.
module _ (hash : String → String) where
  unfoldable pub add_api_key : ApiKeyMeta → List (String × ApiKeyMeta) → List (String × ApiKeyMeta)
  add_api_key meta keys = (hash (str_append meta.key_id (str_append ":" meta.secret)), meta) ∷ keys

  unfoldable pub find_key : String → List (String × ApiKeyMeta) → Option ApiKeyMeta
  find_key h [] = none
  find_key h ((k, meta) ∷ keys) = if k == h then some meta else find_key h keys

  unfoldable pub validate_api_key :
      (now : ℕ) → (key_id secret : String) → List (String × ApiKeyMeta) → ApiKeyResult
  unfolding find_key
  validate_api_key now key_id secret keys =
      elim (find_key (hash (str_append key_id (str_append ":" secret))) keys) [
        | none ↦ invalid_key
        | some meta ↦ if ltb meta.expires_at now then key_expired else valid_key meta
      ]
