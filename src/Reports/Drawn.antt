-- ===== src/Reports/Drawn.antt =====
-- What the two reports draw.
use vault_keeper.Prelude.{
  ℕ, ◌≤◌, ◌≡◌, refl, ap, ◌∙◌, zero, suc, Bool, true, false, ◌&&◌, ◌||◌, ltb, ◌==◌, nat_eq, take,
  Option, none, some, Bool-cases, inl, inr, List, [], ◌∷◌, Result, ok, err, length, filter, arith,
  bind-ok, ◌>>=◌,
}
use vault_keeper.Prelude.Int.{pos, clamp}
use vault_keeper.Prelude.Sort.{sort_by}
use vault_keeper.Custody.{ChainVerification, Event, Uuid, Time}
use vault_keeper.Custody.Log.{Error as LogError, descending}
use vault_keeper.Custody.Pages.{
  Page, column_is, page_of, read_cursor, list_page, list as list_events,
}
use vault_keeper.Evidence.Model.{Bytes, EvidenceItem}
use vault_keeper.Evidence.Repository.{find_by_id as find_item}
use vault_keeper.Reports.Pdf.{
  Ext, Faults, Sources, CaseRecord, Row, Error, load_case, load_evidence, load_events, labelled,
  find_record, line, evidence_rows, drawn, generate_evidence_custody_pdf,
}

-- Later entries, and of one time those of the greater ids, stand first.
abbrev pub newest : Event → Event → Bool
newest a b = ltb b.timestamp a.timestamp || (b.timestamp == a.timestamp && ltb b.id a.id)

module _ (ext : Ext) where
  verified_rows : List Event → List Row
  verified_rows events =
      line ("Hash Chain Verification" ∷ [])
      ∷ line ("Total Entries:" ∷ ext.decimal (length events) ∷ [])
      ∷ line ("Chain Status:" ∷ "VERIFIED - Chain is intact" ∷ [])
      ∷ []

  verdict : Result LogError ChainVerification → Bool
  verdict (ok v) = v.valid
  verdict (err e) = false

  drawn_inv :
      (fails : Bool) (rows : List Row) (b : Bytes)
      → drawn ext fails rows ≡ ok b
      → b ≡ ext.render rows
  drawn_inv fails rows b h = ground arith

  labelled-ok : {E A : Type 0} (l : Error) (r : Result E A) {a : A} → labelled l r ≡ ok a → r ≡ ok a
  labelled-ok l (ok a) h = cc
  labelled-ok l (err e) h = cc

  filter_and_true :
      (p : Event → Bool) (es : List Event) → filter (λ e. p e && true) es ≡ filter p es
  filter_and_true p [] = refl
  filter_and_true p (e ∷ es) = elim (Bool-cases (p e)) [
    | inl y ↦ rw y (ap (λ l. e ∷ l) (filter_and_true p es))
    | inr n ↦ rw n (filter_and_true p es)
  ]

  take_less : (n : ℕ) (es : List Event) → take n (take (suc n) es) ≡ take n es
  take_less zero es = refl
  take_less (suc n) [] = refl
  take_less (suc n) (e ∷ es) = ap (λ l. e ∷ l) (take_less n es)

  first_page :
      (id : Uuid) (events : List Event) (cursor : Option Uuid) (page : Page)
      → read_cursor ext.codec "" ≡ ok cursor
      → page ≡ page_of "evidence_id" id (clamp 50 200 (pos 10000)) events cursor
      → page.items ≡ take 200 (sort_by newest (filter (λ e. e.evidence_id == id) events))
  unfolding read_cursor page_of descending clamp
  first_page id events none page r h =
      ap (λ (p : Page). p.items) h
      ∙ take_less 200 _
      ∙ ap (λ es. take 200 (sort_by newest es)) (filter_and_true (λ e. e.evidence_id == id) events)
  first_page id events (some c) page r h = absurd (ground arith)

  -- A report of one item that is generated draws the newest 200 entries of the log of the item, the
  -- newest first, and no others, though it asks for 10,000 and the item may have more.
  pub generate_evidence_custody_pdf-page :
      (f : Faults) (now later : Time) (id : Uuid) (s : Sources) (b : Bytes)
      → generate_evidence_custody_pdf ext f now later id s ≡ ok b
      → (c : CaseRecord) × (item : EvidenceItem) × (page : Page) × (b
          ≡ ext.render (evidence_rows ext now later c item page.items))
        × (page.items ≡ take 200 (sort_by newest (filter (λ e. e.evidence_id == id) s.events)))
        × (page.total ≡ length (filter (column_is "evidence_id" id) s.events))
        × (length page.items ≤ 200)
  unfolding generate_evidence_custody_pdf
  generate_evidence_custody_pdf-page f now later id s b h =
      let log = labelled load_events (
        list_events ext.codec f.count_fails f.query_fails "evidence_id" id (pos 10000) ""
          s.events) in
      let draw = λ (item : EvidenceItem) (c : CaseRecord) (page : Page).
        drawn ext f.render_fails (evidence_rows ext now later c item page.items) in
      let record_of = λ (item : EvidenceItem).
        labelled load_case (find_record f.case_fails item.case_id s.cases) in
      let (item, x, h₁) =
        bind-ok (labelled load_evidence (find_item f.item_fails id s.items))
          (λ item. record_of item >>= λ c. log >>= draw item c) h in
      let (c, y, h₂) = bind-ok (record_of item) (λ c. log >>= draw item c) h₁ in
      let (page, z, h₃) = bind-ok log (draw item c) h₂ in
      let (most, total, (cursor, read, same)) =
        list_page ext.codec f.count_fails f.query_fails "evidence_id" id (pos 10000) "" s.events
          (labelled-ok load_events _ z) in
      (
        c,
        item,
        page,
        drawn_inv f.render_fails _ b h₃,
        first_page id s.events cursor page read same,
        total,
        most,
      )
