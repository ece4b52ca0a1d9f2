-- ===== src/Backup/Format.antt =====
-- The header, the length prefix and the constants of encrypt.go.
use vault_keeper.Prelude.{
  ℕ, ◌+◌, ◌*◌, ◌/◌, ◌%◌, ◌^◌, ◌<◌, ◌≡◌, Bool, true, false, List, [], ◌∷◌, ◌++◌, arith, Result, ok,
  err, ltb, ◌==◌, nat_eq, if◌then◌else◌, length, take, drop, not, take-append, length-append,
}

abbrev pub Bytes : Type 0
Bytes = List ℕ

pub data Error : Type 0 where
  empty_key salt_failed nonce_failed read_failed : Error
  short_header bad_magic : Error
  bad_version : ℕ → Error
  chunk_too_long : ℕ → Error
  short_chunk no_nonce not_authentic out_of_fuel : Error

-- "VKBK"
abbrev pub header_magic : Bytes
header_magic = 86 ∷ 75 ∷ 66 ∷ 75 ∷ []

abbrev pub header_version : ℕ
header_version = 1

-- "AES-256-GCM", and the zero byte that the array keeps behind it
abbrev pub algorithm : Bytes
algorithm = 65 ∷ 69 ∷ 83 ∷ 45 ∷ 50 ∷ 53 ∷ 54 ∷ 45 ∷ 71 ∷ 67 ∷ 77 ∷ 0 ∷ []

abbrev pub salt_len : ℕ
salt_len = 32

abbrev pub nonce_len : ℕ
nonce_len = 12

-- 64 KiB; shut, so that no proof counts it.
unfoldable pub chunk_size : ℕ
chunk_size = 64 * 1024

abbrev pub header_len : ℕ
header_len = 49

abbrev pub max_chunk_len : ℕ
max_chunk_len = 2 ^ 20

pub record Header : Type 0 where
  pub magic : Bytes
  pub version : ℕ
  pub salt : Bytes

-- The salt is `saltLen` bytes, which fill the array.
unfoldable pub write_header : Bytes → Bytes
write_header salt = header_magic ++ (header_version ∷ (algorithm ++ salt))

abbrev same_bytes : Bytes → Bytes → Bool
same_bytes [] [] = true
same_bytes (x ∷ xs) (y ∷ ys) = let rest = same_bytes xs ys in if x == y then rest else false
same_bytes _ _ = false

check_header : Header → Result Error Header
check_header h =
    if not (same_bytes h.magic header_magic)
    then err bad_magic
    else if not (h.version == header_version)
    then err (bad_version h.version)
    else ok h

first_or_zero : Bytes → ℕ
first_or_zero [] = 0
first_or_zero (b ∷ _) = b

-- `binary.Read` fails on fewer bytes than the header has.
unfoldable pub read_header : Bytes → Result Error Header
unfolding check_header first_or_zero
read_header r =
    if ltb (length r) header_len
    then err short_header
    else check_header (record {
      magic = take 4 r;
      version = first_or_zero (drop 4 r);
      salt = take salt_len (drop 17 r);
    })

-- `binary.BigEndian.PutUint32` of `uint32(n)`, and `Uint32`.
unfoldable pub put_uint32 : ℕ → Bytes
put_uint32 n = (n / 16777216 % 256) ∷ (n / 65536 % 256) ∷ (n / 256 % 256) ∷ (n % 256) ∷ []

unfoldable pub uint32 : Bytes → ℕ
uint32 (a ∷ b ∷ c ∷ d ∷ []) = a * 16777216 + b * 65536 + c * 256 + d
uint32 _ = 0

pub uint32-put_uint32 : (n : ℕ) → n < 2 ^ 32 → uint32 (put_uint32 n) ≡ n
unfolding uint32 put_uint32
uint32-put_uint32 n h = omega arith

pub read-write_header :
    (salt rest : Bytes)
    → length salt ≡ salt_len
    → read_header (write_header salt ++ rest)
      ≡ ok (record { magic = header_magic; version = header_version; salt = salt })
unfolding read_header write_header
read-write_header salt rest h =
    ground (arith, take-append salt_len salt rest h, length-append salt rest)
