-- ===== src/Access/Revoked.antt =====
-- What revoking a role does to the guard of a case.
use vault_keeper.Prelude.{
  ℕ, ◌<◌, String, ◌≡◌, refl, Bool, true, false, not, ◌&&◌, List, [], ◌∷◌, some, arith, ◌==◌, nat_eq,
  string_eq, eq_iff, nat_beq_iff, any, filter,
}
use vault_keeper.Custody.{Uuid, Time}
use vault_keeper.Access.Roles.{SystemRole, level, role_system_admin}
use vault_keeper.Access.Gates.{
  CaseRole, Store, deny, pass, of_user, revoke_role, list_roles, load_case_role, require_case_role,
  handle_revoke, handle_assign, assign_role,
}

without-none :
    (c : Uuid) (u : String) (roles : List CaseRole)
    → filter (of_user c u) (filter (λ r. not (of_user c u r)) roles) ≡ []
without-none c u [] = refl
without-none c u (r ∷ roles) = ground (arith, without-none c u roles)

without-others :
    (c d : Uuid) (u v : String) (roles : List CaseRole)
    → ((c == d) && (u == v)) ≡ false
    → filter (of_user d v) (filter (λ r. not (of_user c u r)) roles) ≡ filter (of_user d v) roles
without-others c d u v [] h = refl
without-others c d u v (r ∷ roles) h =
    ground
      (arith, eq_iff u v, eq_iff r.user_id u, eq_iff r.user_id v, without-others c d u v roles h)

handle_revoke-roles :
    (list_fails fails recorder : Bool) (by : String) (c : Uuid) (u : String) (s : Store)
    → (handle_revoke list_fails fails recorder by c u s).0 ≡ 200
    → (handle_revoke list_fails fails recorder by c u s).1.roles
      ≡ filter (λ r. not (of_user c u r)) s.roles
unfolding handle_revoke revoke_role list_roles
handle_revoke-roles list_fails fails recorder by c u s h = ground arith

-- After a revocation that answers 200 the user, below a system administrator, is denied at every
-- guard of the case, whichever row a query would choose.
pub handle_revoke-denies :
    (list_fails fails recorder : Bool) (by : String) (c : Uuid) (u : String) (s : Store) (n : ℕ)
    (allowed : List String) (role : SystemRole)
    → let t = (handle_revoke list_fails fails recorder by c u s).1 in
      (handle_revoke list_fails fails recorder by c u s).0 ≡ 200
      → level role < level role_system_admin
      → require_case_role
          (λ d v. load_case_role false n d v t.roles)
          allowed
          (some (record { user_id = u; system_role = role }))
          (some c)
        ≡ deny
unfolding require_case_role load_case_role
handle_revoke-denies list_fails fails recorder by c u s n allowed role h below =
    rw (handle_revoke-roles list_fails fails recorder by c u s h, without-none c u s.roles)
      (ground (arith, below))

-- After a revocation that answers 200 the table answers for any other user, or the user in any other
-- case, as before, whichever row a query would choose.
handle_revoke-others :
    (list_fails fails recorder : Bool) (by : String) (c : Uuid) (u : String) (s : Store) (n : ℕ)
    (d : Uuid) (v : String)
    → let t = (handle_revoke list_fails fails recorder by c u s).1 in
      (handle_revoke list_fails fails recorder by c u s).0 ≡ 200
      → ((c == d) && (u == v)) ≡ false
      → load_case_role false n d v t.roles ≡ load_case_role false n d v s.roles
unfolding load_case_role
handle_revoke-others list_fails fails recorder by c u s n d v h other =
    rw
      (
        handle_revoke-roles list_fails fails recorder by c u s h,
        without-others c d u v s.roles other,
      )
      refl

-- After an assignment that answers 201 to a user without a role in the case, the user, below a
-- system administrator, passes every guard that allows the role, with that role in the context.
handle_assign-passes :
    (fails recorder : Bool) (fresh : Uuid) (now : Time) (by : String) (c : Uuid) (u role : String)
    (s : Store)
    → let t = (handle_assign fails recorder fresh now by c u role s).1 in
      filter (of_user c u) s.roles ≡ []
      → (handle_assign fails recorder fresh now by c u role s).0 ≡ 201
      → (n : ℕ) (allowed : List String) (system : SystemRole)
      → level system < level role_system_admin
      → any (λ a. a == role) allowed ≡ true
      → require_case_role
          (λ d v. load_case_role false n d v t.roles)
          allowed
          (some (record { user_id = u; system_role = system }))
          (some c)
        ≡ pass (some role)
unfolding require_case_role load_case_role handle_assign assign_role
handle_assign-passes fails recorder fresh now by c u role s none_yet h n allowed system below a =
    ground (arith, eq_iff u u, nat_beq_iff c c)
