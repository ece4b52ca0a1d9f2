-- ===== src/Prelude/Sort.antt =====
-- ORDER BY of the queries: a stable insertion sort by a Boolean order.
use Prim.Native.Nat.{suc}
use native.Mathlib.Omega.{arith}
use mathlib.Core.Path.{◌≡◌, refl, ap}
use mathlib.Core.Bool.{Bool, true, false}
use mathlib.Core.List.{List, [], ◌∷◌, ◌++◌, reverse, reverse-cons}
use mathlib.Core.Logic.{inl, inr}
use vault_keeper.Prelude.Tests.{if◌then◌else◌, Bool-cases}
use vault_keeper.Prelude.Lists.{length, filter, All, All-append}

module _ {ℓ} {A : Type ℓ} (before : A → A → Bool) where
  unfoldable pub insert : A → List A → List A
  insert x [] = x ∷ []
  insert x (y ∷ ys) = let rest = insert x ys in if before x y then x ∷ y ∷ ys else y ∷ rest

  unfoldable pub sort_by : List A → List A
  unfolding insert
  sort_by [] = []
  sort_by (x ∷ xs) = insert x (sort_by xs)

  length-insert : (x : A) (ys : List A) → length (insert x ys) ≡ suc (length ys)
  unfolding insert
  length-insert x [] = refl
  length-insert x (y ∷ ys) = ground (arith, length-insert x ys)

  pub length-sort_by : (xs : List A) → length (sort_by xs) ≡ length xs
  unfolding sort_by
  length-sort_by [] = refl
  length-sort_by (x ∷ xs) = omega (arith, length-insert x (sort_by xs), length-sort_by xs)

  count-insert :
      (q : A → Bool) (x : A) (ys : List A)
      → length (filter q (insert x ys)) ≡ length (filter q (x ∷ ys))
  unfolding insert
  count-insert q x [] = refl
  count-insert q x (y ∷ ys) = ground (arith, count-insert q x ys)

  -- A sort keeps how many rows pass any test.
  pub count-sort_by :
      (q : A → Bool) (xs : List A) → length (filter q (sort_by xs)) ≡ length (filter q xs)
  unfolding sort_by
  count-sort_by q [] = refl
  count-sort_by q (x ∷ xs) =
      let rest = count-sort_by q xs in
      let first = count-insert q x (sort_by xs) in ground (arith, rest, first)

  -- What comes after everything goes to the end.
  pub insert_last :
      (x : A) (ys : List A) → All (λ y. before x y ≡ false) ys → insert x ys ≡ ys ++ x ∷ []
  unfolding insert
  insert_last x [] h = refl
  insert_last x (y ∷ ys) h = rw h.0 (ap (λ t. y ∷ t) (insert_last x ys h.1))

  pub insert_first : (x : A) (ys : List A) → All (λ y. before x y ≡ true) ys → insert x ys ≡ x ∷ ys
  unfolding insert
  insert_first x [] h = refl
  insert_first x (y ∷ ys) h = rw h.0

  -- A list whose entries come each after (or before) all those behind it.
  abbrev pub Descending : Bool → List A → Type 0
  Descending b [] = Unit
  Descending b (x ∷ xs) = All (λ y. before x y ≡ b) xs × Descending b xs

module _ {ℓ κ} {A : Type ℓ} (P : A → Type κ) where
  pub All-reverse : (xs : List A) → All P xs → All P (reverse xs)
  All-reverse [] h = h
  All-reverse (x ∷ xs) h =
      rw (reverse-cons x xs) (All-append P (reverse xs) (x ∷ []) (All-reverse xs h.1) (h.0, tt))

module _ {ℓ} {A : Type ℓ} (before : A → A → Bool) where
  -- A list that is newest first is its own descending sort.
  pub sort_by-first : (xs : List A) → Descending before true xs → sort_by before xs ≡ xs
  unfolding sort_by
  sort_by-first [] h = refl
  sort_by-first (x ∷ xs) h = rw (sort_by-first xs h.1) (insert_first before x xs h.0)

  -- Its ascending sort is its reverse.
  pub sort_by-last : (xs : List A) → Descending before false xs → sort_by before xs ≡ reverse xs
  unfolding sort_by
  sort_by-last [] h = refl
  sort_by-last (x ∷ xs) h =
      rw (sort_by-last xs h.1, reverse-cons x xs)
        (insert_last before x (reverse xs) (All-reverse _ xs h.0))

module _ {ℓ κ} {A : Type ℓ} (P : A → Type κ) (before : A → A → Bool) where
  pub All-insert : (x : A) (xs : List A) → P x → All P xs → All P (insert before x xs)
  unfolding insert
  All-insert x [] p h = (p, tt)
  All-insert x (y ∷ ys) p h = elim (Bool-cases (before x y)) [
    | inl b ↦ rw b (p, h)
    | inr b ↦ rw b (h.0, All-insert x ys p h.1)
  ]

  -- What holds of all rows holds of all rows of a sorted result.
  pub All-sort_by : (xs : List A) → All P xs → All P (sort_by before xs)
  unfolding sort_by
  All-sort_by [] h = h
  All-sort_by (x ∷ xs) h = All-insert x (sort_by before xs) h.0 (All-sort_by xs h.1)
