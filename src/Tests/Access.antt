-- ===== src/Tests/Access.antt =====
-- A token's roles, and a case role that is given and taken.
use vault_keeper.Prelude.{
  String, ◌≡◌, refl, true, false, List, [], ◌∷◌, some, arith, nat_eq, string_eq,
}
use vault_keeper.Access.Roles.{role_user}
use vault_keeper.Access.Gates.{
  Store, deny, load_case_role, require_case_role, handle_assign, handle_revoke, revoke_role,
  list_roles, assign_role,
}
use vault_keeper.Access.Revoked.{handle_revoke-denies}

abbrev token_roles : List String
token_roles = "user" ∷ "offline_access" ∷ "system_admin" ∷ []

abbrev granted : Store
granted = record {
  roles =
      (record {
        id = 1;
        case_id = 4;
        user_id = "v";
        role = "defence";
        granted_by = "a";
        granted_at = 5;
      })
      ∷ [];
  custody = [];
}

revoked : (handle_revoke false false true "a" 4 "v" granted).0 ≡ 200
unfolding handle_revoke revoke_role list_roles
revoked = refl

handle_revoke-denies_example :
    require_case_role
      (λ d v. load_case_role false 2 d v (handle_revoke false false true "a" 4 "v" granted).1.roles)
      ("defence" ∷ [])
      (some (record { user_id = "v"; system_role = role_user }))
      (some 4)
    ≡ deny
handle_revoke-denies_example =
    handle_revoke-denies false false true "a" 4 "v" granted 2 ("defence" ∷ []) role_user revoked
      (omega arith)

assigned : (handle_assign false true 2 6 "a" 4 "w" "judge" granted).0 ≡ 201
unfolding handle_assign assign_role
assigned = refl
