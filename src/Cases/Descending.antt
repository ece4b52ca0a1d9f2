-- ===== src/Cases/Descending.antt =====
-- Cases in strictly descending order of their ids, and the cut that a cursor makes.
use vault_keeper.Prelude.{
  ℕ, zero, suc, ◌+◌, ◌<◌, ◌≡◌, ◌≢◌, refl, sym, ap, ◌∙◌, Bool, true, false, ◌&&◌, List, [], ◌∷◌,
  arith, ltb, nat_eq, if◌then◌else◌, filter, take, drop, length, All, All-filter, All-map,
  Bool-cases, inl, inr,
}
use vault_keeper.Prelude.Sort.{insert, sort_by, All-insert, All-sort_by}
use vault_keeper.Custody.{Uuid}
use vault_keeper.Cases.Model.{Case}
use vault_keeper.Cases.Lists.{newest, last_id}

abbrev pub under : Uuid → Case → Bool
under id c = ltb c.id id

abbrev pub StrictlyDescending : List Case → Type 0
StrictlyDescending [] = Unit
StrictlyDescending (c ∷ cs) = All (λ d. d.id < c.id) cs × StrictlyDescending cs

-- The primary key.
abbrev pub Distinct : List Case → Type 0
Distinct [] = Unit
Distinct (c ∷ cs) = All (λ d. d.id ≢ c.id) cs × Distinct cs

pub filter_and :
    (p q : Case → Bool) (cs : List Case) → filter (λ c. p c && q c) cs ≡ filter q (filter p cs)
filter_and p q [] = refl
filter_and p q (c ∷ cs) = ground (arith, filter_and p q cs)

insert-filter :
    (id : Uuid) (c : Case) (cs : List Case)
    → filter (under id) (insert newest c cs)
      ≡ (if under id c then insert newest c (filter (under id) cs) else filter (under id) cs)
unfolding insert
insert-filter id c [] = ground arith
insert-filter id c (d ∷ cs) = ground (arith, insert-filter id c cs)

sorted_if :
    (c : Case) (b : Bool) (xs ys : List Case)
    → sort_by newest xs ≡ ys
    → (if b then insert newest c ys else ys) ≡ sort_by newest (if b then c ∷ xs else xs)
unfolding sort_by
sorted_if c true xs ys h = ap (insert newest c) (sym h)
sorted_if c false xs ys h = sym h

-- What is below an id can be taken before the sort or after it.
pub sort_by-filter :
    (id : Uuid) (cs : List Case)
    → sort_by newest (filter (under id) cs) ≡ filter (under id) (sort_by newest cs)
unfolding sort_by
sort_by-filter id [] = refl
sort_by-filter id (c ∷ cs) =
    let rest = sort_by-filter id cs in
    sym (
      insert-filter id c (sort_by newest cs)
      ∙ sorted_if c (under id c) (filter (under id) cs) (filter (under id) (sort_by newest cs))
          rest)

insert-StrictlyDescending :
    (c : Case) (cs : List Case)
    → All (λ d. d.id ≢ c.id) cs
    → StrictlyDescending cs
    → StrictlyDescending (insert newest c cs)
unfolding insert
insert-StrictlyDescending c [] n h = (tt, tt)
insert-StrictlyDescending c (d ∷ cs) n h = elim (Bool-cases (newest c d)) [
  | inl y ↦ rw y ((ground arith, All-map (λ e (a : e.id < d.id). ground arith) cs h.0), h)
  | inr y ↦ rw y (
    All-insert (λ e. e.id < d.id) newest c cs (ground (arith, n.0)) h.0,
    insert-StrictlyDescending c cs n.1 h.1,
  )
]

pub sort_by-StrictlyDescending :
    (cs : List Case) → Distinct cs → StrictlyDescending (sort_by newest cs)
unfolding sort_by
sort_by-StrictlyDescending [] h = tt
sort_by-StrictlyDescending (c ∷ cs) h =
    insert-StrictlyDescending c (sort_by newest cs) (All-sort_by (λ d. d.id ≢ c.id) newest cs h.0)
      (sort_by-StrictlyDescending cs h.1)

pub filter-Distinct : (p : Case → Bool) (cs : List Case) → Distinct cs → Distinct (filter p cs)
filter-Distinct p [] h = tt
filter-Distinct p (c ∷ cs) h = elim (Bool-cases (p c)) [
  | inl y ↦ rw y (All-filter p cs (λ d a b. a) h.0, filter-Distinct p cs h.1)
  | inr y ↦ rw y (filter-Distinct p cs h.1)
]

filter-under_whole :
    (id : Uuid) (cs : List Case) → All (λ d. d.id < id) cs → filter (under id) cs ≡ cs
filter-under_whole id [] h = refl
filter-under_whole id (c ∷ cs) h = ground (arith, filter-under_whole id cs h.1, h.0)

last_id-below :
    (id : Uuid) (n : ℕ) (c : Case) (cs : List Case)
    → All (λ d. d.id < id) (c ∷ cs)
    → last_id (take (suc n) (c ∷ cs)) < id
last_id-below id zero c cs h = h.0
last_id-below id (suc n) c [] h = h.0
last_id-below id (suc n) c (d ∷ cs) h = last_id-below id n d cs h.1

-- What is below the last of a page is what comes after the page.
pub filter-last_id :
    (n : ℕ) (cs : List Case)
    → n < length cs
    → StrictlyDescending cs
    → filter (under (last_id (take (suc n) cs))) cs ≡ drop (suc n) cs
filter-last_id n [] l h = absurd (omega arith)
filter-last_id zero (c ∷ cs) l h = let rest = filter-under_whole c.id cs h.0 in ground (arith, rest)
filter-last_id (suc n) (c ∷ []) l h = absurd (omega arith)
filter-last_id (suc n) (c ∷ d ∷ cs) l h =
    let rest = filter-last_id n (d ∷ cs) (omega arith) h.1 in
    let low = last_id-below c.id n d cs h.0 in
    let miss : under (last_id (take (suc n) (d ∷ cs))) c ≡ false = ground arith in rw miss rest

-- The last of a page is the last of all that was read so far.
pub last_id-take :
    (k n m : ℕ) (cs : List Case)
    → k < length cs
    → k + n ≡ m
    → last_id (take (suc n) (drop k cs)) ≡ last_id (take (suc m) cs)
last_id-take zero n m cs l h = let same : n ≡ m = omega arith in rw same
last_id-take (suc k) n zero cs l h = absurd (omega arith)
last_id-take (suc k) n (suc m) [] l h = absurd (omega arith)
last_id-take (suc k) n (suc m) (c ∷ []) l h = absurd (omega arith)
last_id-take (suc k) n (suc m) (c ∷ d ∷ cs) l h =
    last_id-take k n m (d ∷ cs) (omega arith) (omega arith)
