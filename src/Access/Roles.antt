-- ===== src/Access/Roles.antt =====
-- The system roles of context.go, and the one that a token's list of roles gives (middleware.go).
use mathlib.Core.Bool.{true≢false}
use vault_keeper.Prelude.{
  ℕ, ◌≤◌, String, ◌≡◌, refl, ap, sym, ◌∙◌, ◌⊎◌, inl, inr, Bool, true, false, ◌&&◌, List, [], ◌∷◌,
  arith, ltb, ◌==◌, string_eq, if◌then◌else◌, All, Bool-cases,
}

-- `RoleNone` is -1, and `RoleAPIService` 0.
pub data SystemRole : Type 0 where
  role_none role_api_service role_user role_case_admin role_system_admin : SystemRole

-- The number of a role plus one, by which roles are compared.
abbrev pub level : SystemRole → ℕ
level role_none = 0
level role_api_service = 1
level role_user = 2
level role_case_admin = 3
level role_system_admin = 4

unfoldable pub parse_system_role : String → SystemRole × Bool
parse_system_role s =
    if s == "system_admin"
    then (role_system_admin, true)
    else if s == "case_admin"
    then (role_case_admin, true)
    else if s == "user"
    then (role_user, true)
    else if s == "api_service"
    then (role_api_service, true)
    else (role_none, false)

-- `if ok && parsed > highest { highest = parsed }`
abbrev raised : SystemRole → SystemRole × Bool → SystemRole
raised highest (parsed, good) =
    if good && ltb (level highest) (level parsed) then parsed else highest

unfoldable pub highest_role : SystemRole → List String → SystemRole
highest_role highest [] = highest
highest_role highest (r ∷ roles) = highest_role (raised highest (parse_system_role r)) roles

unfoldable pub extract_system_role : List String → SystemRole × Bool
extract_system_role roles =
    let highest = highest_role role_none roles in
    if ltb 0 (level highest) then (highest, true) else (role_none, false)

-- A text of the list that names this role.
abbrev pub Named : SystemRole → List String → Type 0
Named role [] = ⊥
Named role (r ∷ roles) = (parse_system_role r ≡ (role, true)) ⊎ Named role roles

highest_role-above :
    (start : SystemRole) (roles : List String) → level start ≤ level (highest_role start roles)
unfolding highest_role
highest_role-above start [] = omega arith
highest_role-above start (r ∷ roles) =
    ground (arith, highest_role-above (raised start (parse_system_role r)) roles)

highest_role-max :
    (start : SystemRole) (roles : List String)
    → All (λ r. level (parse_system_role r).0 ≤ level (highest_role start roles)) roles
unfolding highest_role parse_system_role
highest_role-max start [] = tt
highest_role-max start (r ∷ roles) =
    let next = raised start (parse_system_role r) in
    (ground (arith, highest_role-above next roles), highest_role-max next roles)

raised-cases :
    (start : SystemRole) (p : SystemRole × Bool)
    → (raised start p ≡ start) ⊎ (p ≡ (raised start p, true))
raised-cases start (parsed, good) = elim (Bool-cases (good && ltb (level start) (level parsed))) [
  | inr n ↦ inl (rw n refl)
  | inl y ↦ inr (rw y (ap (λ g. (parsed, g)) (ground (arith, y))))
]

highest_role-Named :
    (start : SystemRole) (roles : List String)
    → (highest_role start roles ≡ start) ⊎ Named (highest_role start roles) roles
unfolding highest_role
highest_role-Named start [] = inl refl
highest_role-Named start (r ∷ roles) =
    let next = raised start (parse_system_role r) in
    elim (highest_role-Named next roles) [
      | inr n ↦ inr (inr n)
      | inl e ↦ elim (raised-cases start (parse_system_role r)) [
        | inl q ↦ inl (e ∙ q)
        | inr q ↦ inr (inl (q ∙ ap (λ x. (x, true)) (sym e)))
      ]
    ]

top_is_listed :
    (roles : List String)
    → ltb 0 (level (highest_role role_none roles)) ≡ true
    → Named (highest_role role_none roles) roles
top_is_listed roles y = elim (highest_role-Named role_none roles) [
  | inr n ↦ n
  | inl e ↦ absurd (true≢false (sym y ∙ ap (λ r. ltb 0 (level r)) e))
]

-- The role that a token's list gives is at or above every role that the list names. It is one that
-- the list names, or the list names none and the token has none.
extract_system_role_max :
    (roles : List String)
    → let (role, good) = extract_system_role roles in
      All (λ r. level (parse_system_role r).0 ≤ level role) roles
      × (((good ≡ true) × Named role roles) ⊎ ((good ≡ false) × (role ≡ role_none)))
unfolding extract_system_role
extract_system_role_max roles =
    let top = highest_role role_none roles in
    elim (Bool-cases (ltb 0 (level top))) [
      | inr n ↦
          let none_left : level top ≡ 0 = ground (arith, n) in
          rw (n, sym none_left) (highest_role-max role_none roles, inr (refl, refl))
      | inl y ↦ rw y (highest_role-max role_none roles, inl (refl, top_is_listed roles y))
    ]
