-- ===== src/Preflight.antt =====
-- client/lib/deploy-preflight.ts: what is asked of the keys and the artifacts before a deployment.
pub mod Separated
pub mod Tests
use kryon.Common.{
  String, Bool, true, false, not, Option, none, some, List, [], ◌∷◌, ◌++◌, str_eq, if◌then◌else◌,
  any, keep,
}

abbrev pub required_lifecycle_exports : List String
required_lifecycle_exports = "upgrade" ∷ "nominate_admin" ∷ "accept_admin" ∷ []

unfoldable pub missing_lifecycle_exports : List String → List String
missing_lifecycle_exports exports =
    keep (λ fn. not (any (λ e. str_eq e fn) exports)) required_lifecycle_exports

-- The public key of each role, `none` where it is not set or empty
abbrev pub RoleKeys : Type 0
RoleKeys = String → Option String

abbrev pub operator_roles : List String
operator_roles = "oracle" ∷ "matcher" ∷ "liquidator" ∷ "ttl" ∷ "funding" ∷ []

-- A role that has the key of the admin, or that of a role before it
pub data Violation : Type 0 where
  shared_with_admin : String → Violation
  shared_with : String → String → Violation

abbrev pub has_key : Option String → String → Bool
has_key none key = false
has_key (some k) key = str_eq k key

unfoldable pub admin_violations : RoleKeys → String → List String → List Violation
admin_violations roles admin [] = []
admin_violations roles admin (role ∷ rest) =
    let others = admin_violations roles admin rest in
    if has_key (roles role) admin then shared_with_admin role ∷ others else others

-- `seen.get(key)`
unfoldable pub seen_role : String → List (String × String) → Option String
seen_role key [] = none
seen_role key ((k, role) ∷ rest) = if str_eq k key then some role else seen_role key rest

-- The violations from a role on, from those of the roles after it
abbrev pub on_seen : String → Option String → List Violation → List Violation → List Violation
on_seen role none fresh again = fresh
on_seen role (some first) fresh again = shared_with role first ∷ again

abbrev pub on_key :
    String
    → Option String
    → List (String × String)
    → (List (String × String) → List Violation)
    → List Violation
on_key role none seen rest = rest seen
on_key role (some key) seen rest =
    on_seen role (seen_role key seen) (rest ((key, role) ∷ seen)) (rest seen)

unfoldable pub role_violations : RoleKeys → List String → List (String × String) → List Violation
unfolding seen_role
role_violations roles [] seen = []
role_violations roles (role ∷ rest) seen =
    let others = role_violations roles rest in on_key role (roles role) seen others

abbrev pub with_admin : RoleKeys → Option String → List Violation
with_admin roles none = []
with_admin roles (some admin) = admin_violations roles admin operator_roles

unfoldable pub key_separation_violations : RoleKeys → List Violation
unfolding admin_violations role_violations
key_separation_violations roles =
    with_admin roles (roles "admin") ++ role_violations roles operator_roles []
