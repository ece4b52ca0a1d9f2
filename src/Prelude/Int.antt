-- ===== src/Prelude/Int.antt =====
-- Go's signed `int`, as far as page limits use it.
use vault_keeper.Prelude.Tests.{ltb, ◌==◌, nat_eq, if◌then◌else◌}
use Prim.Native.Nat.{ℕ}

-- `negsuc n` is -(n + 1).
pub data ℤ : Type 0 where
  pos : ℕ → ℤ
  negsuc : ℕ → ℤ

-- `if limit <= 0 { limit = def }; if limit > max { limit = max }`
unfoldable pub clamp : ℕ → ℕ → ℤ → ℕ
clamp def max (negsuc _) = if ltb max def then max else def
clamp def max (pos n) = let m = if n == 0 then def else n in if ltb max m then max else m
