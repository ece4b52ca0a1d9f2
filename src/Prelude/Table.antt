-- ===== src/Prelude/Table.antt =====
-- A database table as a list of rows with a numeric key: reads and writes by key.
use Prim.Native.Nat.{ℕ}
use mathlib.Core.Path.{◌≡◌}
use mathlib.Core.Bool.{false}
use mathlib.Core.Option
use mathlib.Core.Option.{Option, none, some}
use mathlib.Core.List.{List, [], ◌∷◌}
use native.Mathlib.Omega.{arith}
use vault_keeper.Prelude.Tests.{◌==◌, nat_eq, if◌then◌else◌}
use vault_keeper.Prelude.Lists.{find, update_where, any}

module _ {ℓ} {R : Type ℓ} (key : R → ℕ) where
  -- SELECT … WHERE key = $1
  abbrev pub row : ℕ → List R → Option R
  row k rows = find (λ r. key r == k) rows

  -- UPDATE … WHERE key = $1
  abbrev pub set_row : ℕ → (R → R) → List R → List R
  set_row k f rows = update_where (λ r. key r == k) f rows

  pub row-set_row :
      (i j : ℕ) (f : R → R) (rows : List R)
      → ((r : R) → key (f r) ≡ key r)
      → row j (set_row i f rows) ≡ (if i == j then Option.map f (row j rows) else row j rows)
  row-set_row i j f [] h = ground arith
  row-set_row i j f (r ∷ rows) h = ground (arith, h r, row-set_row i j f rows h)

  -- A key that is found is not free.
  pub row-ne :
      (k j : ℕ) (rows : List R) {r : R}
      → any (λ x. key x == k) rows ≡ false
      → row j rows ≡ some r
      → (k == j) ≡ false
  row-ne k j [] a h = cc
  row-ne k j (x ∷ rows) {r} a h = ground (arith, row-ne k j rows {r = r})

  pub row-key : (k : ℕ) (rows : List R) {r : R} → row k rows ≡ some r → key r ≡ k
  row-key k [] h = cc
  row-key k (x ∷ rows) {r} h = ground (arith, row-key k rows {r = r})
