-- ===== src/Tests/Backup.antt =====
-- A backup of three bytes under a cipher that appends a tag of zeros.
use vault_keeper.Prelude.{
  ℕ, zero, suc, ◌-◌, ◌≡◌, refl, false, [], ◌∷◌, ◌++◌, some, ok, arith, length, take, length-append,
  take-append, ap,
}
use vault_keeper.Backup.Format.{Bytes}
use vault_keeper.Backup.Crypt.{Crypto, Random, Source, encrypt, decrypt}
use vault_keeper.Backup.Frames.{Sealing}
use vault_keeper.Backup.RoundTrip.{IsAead, IsRandom, decrypt-encrypt}

abbrev zeros : ℕ → Bytes
zeros zero = []
zeros (suc n) = 0 ∷ zeros n

abbrev pub toy : Crypto
toy = record {
  derive_key = λ key salt. key;
  seal = λ key nonce chunk. chunk ++ zeros 16;
  open_chunk = λ key nonce sealed. some (take (length sealed - 16) sealed);
}

pub toy-IsAead : IsAead toy
toy-IsAead = record {
  opens = λ key nonce chunk h. ap some (
      take-append (length (chunk ++ zeros 16) - 16) chunk (zeros 16)
        (omega (arith, length-append chunk (zeros 16))));
  tagged = λ key nonce chunk. length-append chunk (zeros 16);
}

abbrev pub fixed : Random
fixed = record { salt = some (zeros 32); nonce = λ i. some (zeros 12) }

pub fixed-IsRandom : IsRandom fixed
fixed-IsRandom = record { salted = (zeros 32, refl, refl); nonces = λ i. (zeros 12, refl, refl) }

abbrev three_bytes : Source
three_bytes = record { bytes = 1 ∷ 2 ∷ 3 ∷ []; fails = false }

decrypt-encrypt_example :
    (out : Bytes) × (encrypt toy fixed three_bytes (7 ∷ []) ≡ ok out)
    × (decrypt toy out (7 ∷ []) ≡ ok (1 ∷ 2 ∷ 3 ∷ []))
decrypt-encrypt_example =
    decrypt-encrypt toy toy-IsAead fixed fixed-IsRandom three_bytes (7 ∷ []) (omega arith) refl

abbrev first_piece : Sealing
first_piece = (zeros 12, 1 ∷ 2 ∷ []) ∷ []
