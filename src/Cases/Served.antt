-- ===== src/Cases/Served.antt =====
-- What requests can do to the cases, whoever sends them.
use vault_keeper.Prelude.{
  ℕ, ◌≤◌, String, ◌≡◌, refl, ap, ◌∙◌, Bool, List, [], ◌∷◌, Option, none, some, Result, ok, err,
  arith, ltb, ◌⊎◌, inl, inr, Bool-cases,
}
use vault_keeper.Prelude.Replies.{Reply, Decoded, too_large, invalid, decoded, replied}
use vault_keeper.Custody.{Uuid}
use vault_keeper.Access.Roles.{level, role_case_admin}
use vault_keeper.Access.Gates.{require_system_role}
use vault_keeper.Access.Tokens.{AuthContext}
use vault_keeper.Cases.Model.{
  Case, CreateCaseInput, UpdateCaseInput, find_by_id, Error, Store, status_archived, case_row,
}
use vault_keeper.Cases.Service.{Ext, create_case, update_case, archive_case, set_legal_hold}
use vault_keeper.Cases.Lists.{Ext as ListExt}
use vault_keeper.Cases.Frozen.{
  Operation, create, update, archive, hold, run, run_all, run_all-archived,
}
use vault_keeper.Cases.Requests.{
  Request, create_request, list_request, get_request, update_request, archive_request, hold_request,
  Body, one_case, page, archived, legal_hold, Parsers, Conditions, Call, asker, behind, shown,
  with_id, with_body, service_error, handle_create, handle_list, handle_get, handle_update,
  handle_archive, handle_hold, serve, serve_all,
}

-- The user that an operation names as its author.
abbrev pub author : Operation → String
author (create f fresh now input by name) = by
author (update f now id input by) = by
author (archive f now id by) = by
author (hold f now id on by) = by

shown-store :
    {A : Type 0} (n : ℕ) (show : A → Body) (q : Result Error A × Store)
    → (replied service_error n (shown show q)).1 ≡ q.1
shown-store n show (ok a, s) = refl
shown-store n show (err e, s) = refl

module _ (ext : Ext) (u : AuthContext) where
  -- A store after nothing, or after one operation by this user.
  abbrev pub Acted : Store → Store → Type 0
  Acted s t = (t ≡ s) ⊎ ((o : Operation) × (author o ≡ u.user_id) × (t ≡ run ext o s))

  with_id-Acted :
      (id : Option Uuid) (h : Uuid → Store → Reply Body × Store) (s : Store)
      → ((i : Uuid) → Acted s (h i s).1)
      → Acted s (with_id id h s).1
  with_id-Acted none h s k = inl refl
  with_id-Acted (some i) h s k = k i

  with_body-Acted :
      {A : Type 0} (body : Decoded A) (h : A → Store → Reply Body × Store) (s : Store)
      → ((a : A) → Acted s (h a s).1)
      → Acted s (with_body body h s).1
  with_body-Acted too_large h s k = inl refl
  with_body-Acted invalid h s k = inl refl
  with_body-Acted (decoded a) h s k = k a

  behind-Acted :
      (h : Store → Reply Body × Store) (s : Store)
      → Acted s (h s).1
      → ((behind (require_system_role role_case_admin (asker (some u))) h s).1 ≡ s)
        ⊎ ((level role_case_admin ≤ level u.system_role)
            × Acted s (behind (require_system_role role_case_admin (asker (some u))) h s).1)
  unfolding require_system_role
  behind-Acted h s k = elim (Bool-cases (ltb (level u.system_role) (level role_case_admin))) [
    | inl low ↦ inl (rw (low, require_system_role) refl)
    | inr high ↦ inr (ground (arith, high), rw (high, require_system_role) k)
  ]

module _ (p : Parsers) (ext : Ext) (lists : ListExt) where
  -- Nothing happened, or one operation of the service in the name of the caller, who signed in and is
  -- at least a case administrator.
  abbrev pub Authorized : Option AuthContext → Store → Store → Type 0
  Authorized caller s t =
      (t ≡ s)
      ⊎ ((u : AuthContext) × (o : Operation) × (caller ≡ some u)
          × (level role_case_admin ≤ level u.system_role)
          × (author o ≡ u.user_id)
          × (t ≡ run ext o s))

  authorize :
      (u : AuthContext) (s t : Store)
      → (t ≡ s) ⊎ ((level role_case_admin ≤ level u.system_role) × Acted ext u s t)
      → Authorized (some u) s t
  authorize u s t (inl e) = inl e
  authorize u s t (inr (l, inl e)) = inl e
  authorize u s t (inr (l, inr (o, a, e))) = inr (u, o, refl, l, a, e)

  handle_create-Acted :
      (c : Conditions) (u : AuthContext) (body : Decoded CreateCaseInput) (s : Store)
      → Acted ext u s (handle_create p ext lists c u body s).1
  unfolding handle_create run
  handle_create-Acted c u body s = with_body-Acted ext u body _ s (λ input. inr (
    create c.faults c.fresh c.now input u.user_id u.username,
    refl,
    shown-store 201 one_case (create_case ext c.faults c.fresh c.now input u.user_id u.username s),
  ))

  handle_update-Acted :
      (c : Conditions) (u : AuthContext) (id : String) (body : Decoded UpdateCaseInput) (s : Store)
      → Acted ext u s (handle_update p ext lists c u id body s).1
  unfolding handle_update run
  handle_update-Acted c u id body s = with_id-Acted ext u (p.parse_uuid id) _ s (λ i.
      with_body-Acted ext u body _ s (λ input. inr (
        update c.faults c.now i input u.user_id,
        refl,
        shown-store 200 one_case (update_case ext c.faults c.now i input u.user_id s),
      )))

  handle_archive-Acted :
      (c : Conditions) (u : AuthContext) (id : String) (s : Store)
      → Acted ext u s (handle_archive p ext lists c u id s).1
  unfolding handle_archive run
  handle_archive-Acted c u id s = with_id-Acted ext u (p.parse_uuid id) _ s (λ i. inr (
    archive c.faults c.now i u.user_id,
    refl,
    shown-store 200 (λ _. archived) (archive_case c.faults c.now i u.user_id s),
  ))

  handle_hold-Acted :
      (c : Conditions) (u : AuthContext) (id : String) (body : Decoded Bool) (s : Store)
      → Acted ext u s (handle_hold p ext lists c u id body s).1
  unfolding handle_hold run
  handle_hold-Acted c u id body s = with_id-Acted ext u (p.parse_uuid id) _ s (λ i.
      with_body-Acted ext u body _ s (λ on. inr (
        hold c.faults c.now i on u.user_id,
        refl,
        shown-store 200 (λ _. legal_hold on) (set_legal_hold c.faults c.now i on u.user_id s),
      )))

  handle_get-same :
      (c : Conditions) (id : Option Uuid) (s : Store)
      → (with_id id
          (λ i s.
            replied service_error 200
              (shown one_case (find_by_id c.faults.find_fails i s.cases, s)))
          s).1
        ≡ s
  handle_get-same c none s = refl
  handle_get-same c (some i) s =
      shown-store 200 one_case (find_by_id c.faults.find_fails i s.cases, s)

  -- A request leaves the store as it was, or does to it what one operation of the service does in
  -- the name of the caller, who then signed in and is at least a case administrator.
  pub serve-Authorized :
      (c : Conditions) (caller : Option AuthContext) (r : Request) (s : Store)
      → Authorized caller s (serve p ext lists c caller r s).1
  unfolding serve handle_get handle_list
  serve-Authorized c none (get_request id) s = inl (handle_get-same c (p.parse_uuid id) s)
  serve-Authorized c (some u) (get_request id) s = inl (handle_get-same c (p.parse_uuid id) s)
  serve-Authorized c none (create_request body) s = inl refl
  serve-Authorized c none (list_request q) s = inl refl
  serve-Authorized c none (update_request id body) s = inl refl
  serve-Authorized c none (archive_request id) s = inl refl
  serve-Authorized c none (hold_request id body) s = inl refl
  serve-Authorized c (some u) (list_request q) s = inl (shown-store 200 page _)
  serve-Authorized c (some u) (create_request body) s =
      authorize u s _
        (behind-Acted ext u (handle_create p ext lists c u body) s (handle_create-Acted c u body s))
  serve-Authorized c (some u) (update_request id body) s = authorize u s _ (
      behind-Acted ext u (handle_update p ext lists c u id body) s
        (handle_update-Acted c u id body s))
  serve-Authorized c (some u) (archive_request id) s =
      authorize u s _
        (behind-Acted ext u (handle_archive p ext lists c u id) s (handle_archive-Acted c u id s))
  serve-Authorized c (some u) (hold_request id body) s =
      authorize u s _ (
        behind-Acted ext u (handle_hold p ext lists c u id body) s
          (handle_hold-Acted c u id body s))

  serve-archived :
      (caller : Option AuthContext) (s t : Store) (j : Uuid) (d : Case)
      → Authorized caller s t
      → case_row j s.cases ≡ some d
      → d.status ≡ status_archived
      → case_row j t.cases ≡ some d
  unfolding run_all
  serve-archived caller s t j d (inl e) h a = ap (λ (x : Store). case_row j x.cases) e ∙ h
  serve-archived caller s t j d (inr (u, o, _, _, _, e)) h a =
      ap (λ (x : Store). case_row j x.cases) e ∙ run_all-archived ext (o ∷ []) s j d h a

  -- No sequence of requests changes a case once it is archived, whoever sends them.
  pub serve_all-archived :
      (rs : List Call) (s : Store) (j : Uuid) (d : Case)
      → case_row j s.cases ≡ some d
      → d.status ≡ status_archived
      → case_row j (serve_all p ext lists rs s).cases ≡ some d
  unfolding serve_all
  serve_all-archived [] s j d h a = h
  serve_all-archived (r ∷ rs) s j d h a =
      let t = (serve p ext lists r.conditions r.caller r.request s).1 in
      serve_all-archived rs t j d
        (serve-archived r.caller s t j d (serve-Authorized r.conditions r.caller r.request s) h a) a
