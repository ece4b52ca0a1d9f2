-- ===== src/Backup/Frames.antt =====
-- What `Decrypt` makes of a sequence of encrypted chunks.
use mathlib.Core.List.{append_assoc}
use vault_keeper.Prelude.{
  ℕ, zero, suc, ◌+◌, ◌≤◌, ◌<◌, ◌≡◌, refl, ap, ◌∙◌, true, false, List, [], ◌∷◌, ◌++◌, some, ok,
  arith, ltb, ◌==◌, nat_eq, length, take, drop, length-append, take-append, drop-append,
}
use vault_keeper.Backup.Format.{
  Bytes, nonce_len, salt_len, header_len, max_chunk_len, write_header, put_uint32, uint32,
  uint32-put_uint32, read-write_header,
}
use vault_keeper.Backup.Crypt.{Crypto, frame, decrypt_loop, decrypt}

-- Nonces with the chunks that they seal.
abbrev pub Sealing : Type 0
Sealing = List (Bytes × Bytes)

abbrev pub plain_of : Sealing → Bytes
plain_of [] = []
plain_of ((nonce, chunk) ∷ rest) = chunk ++ plain_of rest

module _ (c : Crypto) where
  open c use {derive_key, seal, open_chunk}

  abbrev pub frames : Bytes → Sealing → Bytes
  frames key [] = []
  frames key ((nonce, chunk) ∷ rest) = frame c key nonce chunk ++ frames key rest

  -- A nonce of twelve bytes, and a ciphertext within the limit that opens to its chunk.
  abbrev pub IsSound : Bytes → Sealing → Type 0
  IsSound key [] = Unit
  IsSound key ((nonce, chunk) ∷ rest) =
      (length nonce ≡ nonce_len)
      × (length (seal key nonce chunk) + nonce_len ≤ max_chunk_len)
      × (open_chunk key nonce (seal key nonce chunk) ≡ some chunk)
      × IsSound key rest

  length-put_uint32 : (n : ℕ) → length (put_uint32 n) ≡ 4
  unfolding put_uint32
  length-put_uint32 n = refl

  length-frame :
      (key nonce chunk : Bytes)
      → length (frame c key nonce chunk) ≡ 4 + length (nonce ++ seal key nonce chunk)
  unfolding frame
  length-frame key nonce chunk =
      length-append (put_uint32 (length (nonce ++ seal key nonce chunk))) _
      ∙ ap (λ n. n + length (nonce ++ seal key nonce chunk)) (length-put_uint32 _)

  -- One round of the loop that meets no fault.
  decrypt_step :
      (fuel len : ℕ) (key r sealed chunk out : Bytes)
      → ltb (length r) 4 ≡ false
      → uint32 (take 4 r) ≡ len
      → ltb max_chunk_len len ≡ false
      → take len (drop 4 r) ≡ sealed
      → ltb (length sealed) len ≡ false
      → ltb (length sealed) nonce_len ≡ false
      → open_chunk key (take nonce_len sealed) (drop nonce_len sealed) ≡ some chunk
      → decrypt_loop c fuel key (drop len (drop 4 r)) ≡ ok out
      → decrypt_loop c (suc fuel) key r ≡ ok (chunk ++ out)
  unfolding decrypt_loop
  decrypt_step fuel len key r sealed chunk out a b d e f g o h = rw (b, a, d, e, f, g, o, h)

  frame_split :
      (key nonce chunk rest : Bytes)
      → let sealed = nonce ++ seal key nonce chunk in
        (take 4 (frame c key nonce chunk ++ rest) ≡ put_uint32 (length sealed))
        × (drop 4 (frame c key nonce chunk ++ rest) ≡ sealed ++ rest)
  unfolding frame put_uint32
  frame_split key nonce chunk rest = (refl, refl)

  -- One frame in front of anything.
  decrypt_frame :
      (fuel : ℕ) (key nonce chunk rest out : Bytes)
      → length nonce ≡ nonce_len
      → length (seal key nonce chunk) + nonce_len ≤ max_chunk_len
      → open_chunk key nonce (seal key nonce chunk) ≡ some chunk
      → decrypt_loop c fuel key rest ≡ ok out
      → decrypt_loop c (suc fuel) key (frame c key nonce chunk ++ rest) ≡ ok (chunk ++ out)
  decrypt_frame fuel key nonce chunk rest out n l o h =
      let ct = seal key nonce chunk in
      let sealed = nonce ++ ct in
      let size : length sealed ≡ nonce_len + length ct =
        length-append nonce ct ∙ ap (λ k. k + length ct) n in
      let whole = length-append (frame c key nonce chunk) rest in
      let split = frame_split key nonce chunk rest in
      decrypt_step fuel (length sealed) key (frame c key nonce chunk ++ rest) sealed chunk out
        (ground (arith, whole, length-frame key nonce chunk))
        (rw split.0 (uint32-put_uint32 (length sealed) (omega (arith, size))))
        (ground (arith, size)) (rw split.1 (take-append (length sealed) sealed rest refl))
        (ground arith) (ground (arith, size))
        (rw (take-append nonce_len nonce ct n, drop-append nonce_len nonce ct n) o)
        (rw split.1 (rw (drop-append (length sealed) sealed rest refl) h))

  -- A tail too short for a length.
  decrypt_tail :
      (fuel : ℕ) (key tail : Bytes) → length tail < 4 → decrypt_loop c (suc fuel) key tail ≡ ok []
  unfolding decrypt_loop
  decrypt_tail fuel key tail h = let short : ltb (length tail) 4 ≡ true = ground arith in rw short

  pub decrypt_frames :
      (key : Bytes) (sealing : Sealing) (tail : Bytes) (fuel : ℕ)
      → IsSound key sealing
      → length tail < 4
      → length (frames key sealing) < fuel
      → decrypt_loop c fuel key (frames key sealing ++ tail) ≡ ok (plain_of sealing)
  decrypt_frames key sealing tail zero s t f = absurd (omega arith)
  decrypt_frames key [] tail (suc fuel) s t f = decrypt_tail fuel key tail t
  decrypt_frames key ((nonce, chunk) ∷ rest) tail (suc fuel) s t f =
      rw (append_assoc (frame c key nonce chunk) (frames key rest) tail) (
        decrypt_frame fuel key nonce chunk (frames key rest ++ tail) (plain_of rest) s.0 s.1 s.2 (
          decrypt_frames key rest tail fuel s.3 t (
            omega (
              arith,
              length-append (frame c key nonce chunk) (frames key rest),
              length-frame key nonce chunk,
            ))))

  length-write_header :
      (salt : Bytes) → length salt ≡ salt_len → length (write_header salt) ≡ header_len
  unfolding write_header
  length-write_header salt h = omega (arith, h)

  -- `Decrypt` behind a header with the salt that the key was derived with.
  decrypt_body :
      (salt body key : Bytes)
      → length salt ≡ salt_len
      → 0 < length key
      → decrypt c (write_header salt ++ body) key
        ≡ decrypt_loop c (suc (length (write_header salt ++ body))) (derive_key key salt) body
  unfolding decrypt
  decrypt_body salt body key h k =
      let given : (length key == 0) ≡ false = ground arith in
      rw (
        given,
        read-write_header salt body h,
        drop-append header_len (write_header salt) body (length-write_header salt h),
      )

  -- Chunks are not bound to their place or number: a file with a header and any authentic chunks,
  -- as a backup that was cut behind one of them, or within the length of the next, decrypts without
  -- an error to what the chunks hold, in the order in which they stand.
  pub decrypt_pieces :
      (salt key : Bytes) (s : Sealing) (tail : Bytes)
      → length salt ≡ salt_len
      → 0 < length key
      → IsSound (derive_key key salt) s
      → length tail < 4
      → decrypt c (write_header salt ++ (frames (derive_key key salt) s ++ tail)) key
        ≡ ok (plain_of s)
  decrypt_pieces salt key s tail h k sound t =
      let body = frames (derive_key key salt) s ++ tail in
      decrypt_body salt body key h k
      ∙ decrypt_frames (derive_key key salt) s tail _ sound t (
          omega (
            arith,
            length-append (write_header salt) body,
            length-append (frames (derive_key key salt) s) tail,
          ))
