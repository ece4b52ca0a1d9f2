-- ===== src/Integrity/Hex.antt =====
-- `hexToBytes` and `hexVal` of tsa_retry.go, on the bytes of a text.
use vault_keeper.Prelude.{
  ℕ, ◌+◌, ◌-◌, ◌*◌, ◌/◌, ◌%◌, ◌<◌, ◌≡◌, refl, ◌&&◌, List, [], ◌∷◌, Option, none, some, Result, ok,
  err, arith, leb, if◌then◌else◌, All,
}

pub data HexError : Type 0 where
  invalid_hex : HexError

unfoldable pub hex_val : ℕ → Option ℕ
hex_val c =
    if leb 48 c && leb c 57
    then some (c - 48)
    else if leb 97 c && leb c 102
    then some (c - 97 + 10)
    else if leb 65 c && leb c 70
    then some (c - 65 + 10)
    else none

-- `hi<<4 | lo`: both are below 16, so the bits do not meet.
abbrev join : Option ℕ → Option ℕ → Option ℕ
join (some hi) (some lo) = some (hi * 16 + lo)
join _ _ = none

push : Option ℕ → Result HexError (List ℕ) → Result HexError (List ℕ)
push none rest = err invalid_hex
push (some b) (ok bs) = ok (b ∷ bs)
push (some b) (err e) = err e

-- An odd length is refused, as any digit that is none; both have the one error.
unfoldable pub hex_to_bytes : List ℕ → Result HexError (List ℕ)
unfolding push
hex_to_bytes [] = ok []
hex_to_bytes (_ ∷ []) = err invalid_hex
hex_to_bytes (c ∷ d ∷ cs) = push (join (hex_val c) (hex_val d)) (hex_to_bytes cs)

-- The lower-case digit of a half byte, and the digits of bytes, the high half first.
abbrev pub digit : ℕ → ℕ
digit n = if leb n 9 then 48 + n else 87 + n

abbrev pub digits : List ℕ → List ℕ
digits [] = []
digits (b ∷ bs) = digit (b / 16) ∷ digit (b % 16) ∷ digits bs

hex_val-digit : (n : ℕ) → n < 16 → hex_val (digit n) ≡ some n
unfolding hex_val
hex_val-digit n h = ground arith

-- The digits of any bytes are read back as those bytes.
hex_to_bytes-digits : (bs : List ℕ) → All (λ b. b < 256) bs → hex_to_bytes (digits bs) ≡ ok bs
unfolding hex_to_bytes
hex_to_bytes-digits [] h = refl
hex_to_bytes-digits (b ∷ bs) h =
    let whole : b / 16 * 16 + b % 16 ≡ b = omega arith in
    let hi : b / 16 < 16 = omega (arith, h.0) in
    rw (
      hex_val-digit (b / 16) hi,
      hex_val-digit (b % 16) (omega arith),
      hex_to_bytes-digits bs h.1,
      whole,
    )
