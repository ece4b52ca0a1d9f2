-- ===== src/Backup/RoundTrip.antt =====
-- Decryption undoes encryption, and accepts what is left of a file that lost its end.
use mathlib.Core.List.{append-nil}
use vault_keeper.Prelude.{
  ℕ, zero, suc, ◌+◌, ◌≤◌, ◌<◌, ◌≡◌, sym, ap, ◌∙◌, false, [], ◌∷◌, ◌++◌, some, Result, ok, arith,
  ltb, ltb→lt, ◌==◌, nat_eq, if◌then◌else◌, length, take, drop, length-drop, length-take_full,
  eq-nil_of_length, take-append-drop, take_short, Bool-cases, inl, inr,
}
use vault_keeper.Backup.Format.{
  Bytes, Error, nonce_len, salt_len, chunk_size, max_chunk_len, write_header,
}
use vault_keeper.Backup.Crypt.{Crypto, Random, Source, frame, encrypt_loop, encrypt, decrypt}
use vault_keeper.Backup.Frames.{Sealing, plain_of, frames, IsSound, decrypt_pieces}

-- What AES-GCM promises: a sealed chunk opens under its key and nonce, and is 16 bytes longer.
pub record IsAead (c : Crypto) : Type 0 where
  pub opens :
      (key nonce chunk : Bytes)
      → length nonce ≡ nonce_len
      → c.open_chunk key nonce (c.seal key nonce chunk) ≡ some chunk
  pub tagged : (key nonce chunk : Bytes) → length (c.seal key nonce chunk) ≡ length chunk + 16

-- The random source delivers what it is asked for.
pub record IsRandom (rand : Random) : Type 0 where
  pub salted : (salt : Bytes) × (rand.salt ≡ some salt) × (length salt ≡ salt_len)
  pub nonces : (i : ℕ) → (nonce : Bytes) × (rand.nonce i ≡ some nonce) × (length nonce ≡ nonce_len)

module _ (c : Crypto) (aead : IsAead c) (rand : Random) (random : IsRandom rand) where
  open c use {derive_key, seal}

  short_read :
      (n fuel : ℕ) (key : Bytes) (i : ℕ) (r : Source) {nonce : Bytes}
      → r.fails ≡ false
      → length r.bytes < n
      → rand.nonce i ≡ some nonce
      → encrypt_loop c n (suc fuel) key rand i r
        ≡ ok (if length r.bytes == 0 then [] else frame c key nonce r.bytes ++ [])
  unfolding encrypt_loop
  short_read n fuel key i r f l e = rw (take_short n r.bytes (omega arith)) (ground arith)

  full_read :
      (n fuel : ℕ) (key : Bytes) (i : ℕ) (r : Source) {nonce out : Bytes}
      → 0 < n
      → n ≤ length r.bytes
      → rand.nonce i ≡ some nonce
      → encrypt_loop c n fuel key rand (i + 1) (record r { bytes = drop n r.bytes }) ≡ ok out
      → encrypt_loop c n (suc fuel) key rand i r ≡ ok (frame c key nonce (take n r.bytes) ++ out)
  unfolding encrypt_loop
  full_read n fuel key i r z l e h = ground (arith, length-take_full n r.bytes)

  -- The loop yields frames that seal the whole input, in order.
  abbrev Sealed : Bytes → Bytes → Result Error Bytes → Type 0
  Sealed key bytes result =
      (s : Sealing) × (result ≡ ok (frames c key s)) × IsSound c key s × (plain_of s ≡ bytes)

  encrypt_loop-frames :
      (n fuel : ℕ) (key : Bytes) (i : ℕ) (r : Source)
      → 0 < n
      → n + 28 ≤ max_chunk_len
      → r.fails ≡ false
      → length r.bytes < fuel
      → Sealed key r.bytes (encrypt_loop c n fuel key rand i r)
  encrypt_loop-frames n zero key i r z m f l = absurd (omega arith)
  encrypt_loop-frames n (suc fuel) key i r z m f l =
      let (nonce, given, sized) = random.nonces i in
      elim (Bool-cases (ltb (length r.bytes) n)) [
        | inl y ↦
            let short = short_read n fuel key i r f (ltb→lt (length r.bytes) n y) given in
            elim (Bool-cases (length r.bytes == 0)) [
              | inl empty ↦
                  ([], short ∙ rw empty, tt, sym (eq-nil_of_length r.bytes (ground arith)))
              | inr filled ↦ (
                (nonce, r.bytes) ∷ [],
                short ∙ rw filled,
                (
                  sized,
                  ground (arith, aead.tagged key nonce r.bytes),
                  aead.opens key nonce r.bytes sized,
                  tt,
                ),
                append-nil r.bytes,
              )
            ]
        | inr y ↦
            let full : n ≤ length r.bytes = ground arith in
            let cut = length-take_full n r.bytes full in
            let (s, out, sound, plain) =
              encrypt_loop-frames n fuel key (i + 1) (record r { bytes = drop n r.bytes }) z m f
                (omega (arith, length-drop n r.bytes)) in
            (
              (nonce, take n r.bytes) ∷ s,
              full_read n fuel key i r z full given out,
              (
                sized,
                omega (arith, aead.tagged key nonce (take n r.bytes), cut),
                aead.opens key nonce (take n r.bytes) sized,
                sound,
              ),
              ap (λ t. take n r.bytes ++ t) plain ∙ take-append-drop n r.bytes,
            )
      ]

  chunk_size_bounds : (0 < chunk_size) × (chunk_size + 28 ≤ max_chunk_len)
  unfolding chunk_size
  chunk_size_bounds = omega arith

  encrypt_body :
      (r : Source) (key salt body : Bytes)
      → 0 < length key
      → rand.salt ≡ some salt
      → encrypt_loop c chunk_size (suc (length r.bytes)) (derive_key key salt) rand 0 r ≡ ok body
      → encrypt c rand r key ≡ ok (write_header salt ++ body)
  unfolding encrypt
  encrypt_body r key salt body k e h =
      let given : (length key == 0) ≡ false = ground arith in ground arith

  -- Every input that the reader delivers is encrypted, under any key that is not empty, and
  -- decrypting the result under that key gives the input back.
  pub decrypt-encrypt :
      (r : Source) (key : Bytes)
      → 0 < length key
      → r.fails ≡ false
      → (out : Bytes) × (encrypt c rand r key ≡ ok out) × (decrypt c out key ≡ ok r.bytes)
  decrypt-encrypt r key k f =
      let (salt, given, sized) = random.salted in
      let derived = derive_key key salt in
      let (s, loop, sound, plain) =
        encrypt_loop-frames chunk_size (suc (length r.bytes)) derived 0 r chunk_size_bounds.0
          chunk_size_bounds.1 f (omega arith) in
      (
        write_header salt ++ frames c derived s,
        encrypt_body r key salt (frames c derived s) k given loop,
        rw (← append-nil (frames c derived s))
            (decrypt_pieces c salt key s [] sized k sound (omega arith) ∙ ap ok plain),
      )
