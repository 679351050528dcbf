-- ===== src/Preflight/Tests.antt =====
-- The keys of a network whose oracle publisher is its admin.
use kryon.Common.{◌≡◌, refl, none, some, [], ◌∷◌, str_eq, if◌then◌else◌, keep, any}
use kryon.Preflight.{
  RoleKeys, shared_with_admin, admin_violations, role_violations, seen_role,
  key_separation_violations, missing_lifecycle_exports,
}

abbrev roles : RoleKeys
roles r =
    if str_eq r "admin"
    then some "G1"
    else if str_eq r "oracle"
    then some "G1"
    else if str_eq r "matcher"
    then some "G2"
    else none

key_separation_violations-run : key_separation_violations roles ≡ shared_with_admin "oracle" ∷ []
unfolding key_separation_violations admin_violations role_violations seen_role
key_separation_violations-run = refl

missing_lifecycle_exports-run :
    missing_lifecycle_exports ("upgrade" ∷ "init" ∷ []) ≡ "nominate_admin" ∷ "accept_admin" ∷ []
unfolding missing_lifecycle_exports keep any
missing_lifecycle_exports-run = refl
