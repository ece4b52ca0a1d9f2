-- ===== src/Backup/Crypt.antt =====
-- `Encrypt` and `Decrypt` of encrypt.go. AES-GCM, PBKDF2 and the random source are parameters. A
-- buffered loop takes fuel, and enough of it is proved in RoundTrip.
use vault_keeper.Prelude.{
  ℕ, zero, suc, ◌+◌, Bool, true, false, [], ◌++◌, Option, none, some, Result, ok, err, ltb, ◌==◌,
  nat_eq, if◌then◌else◌, length, take, drop, ◌>>=◌,
}
use vault_keeper.Backup.Format.{
  Bytes, Error, empty_key, salt_failed, nonce_failed, read_failed, chunk_too_long, short_chunk,
  no_nonce, not_authentic, out_of_fuel, nonce_len, chunk_size, header_len, max_chunk_len,
  write_header, read_header, put_uint32, uint32,
}

-- `cipher.AEAD` under a derived key, and `pbkdf2.Key`.
pub record Crypto : Type 0 where
  pub derive_key : Bytes → Bytes → Bytes
  pub seal : Bytes → Bytes → Bytes → Bytes
  pub open_chunk : Bytes → Bytes → Bytes → Option Bytes

-- `io.ReadFull(randReader, …)`: the salt, and the nonce of each chunk.
pub record Random : Type 0 where
  pub salt : Option Bytes
  pub nonce : ℕ → Option Bytes

-- A reader: its bytes, and whether an error other than EOF follows them.
pub record Source : Type 0 where
  pub bytes : Bytes
  pub fails : Bool

module _ (c : Crypto) where
  open c use {derive_key, seal, open_chunk}

  -- Length prefix, nonce, ciphertext.
  unfoldable pub frame : Bytes → Bytes → Bytes → Bytes
  frame key nonce chunk =
      let sealed = nonce ++ seal key nonce chunk in put_uint32 (length sealed) ++ sealed

  prepend : Bytes → Result Error Bytes → Result Error Bytes
  prepend out (ok rest) = ok (out ++ rest)
  prepend out (err e) = err e

  -- What a short or empty read means: the end, or the reader's error.
  at_end : Bool → Result Error Bytes
  at_end true = err read_failed
  at_end false = ok []

  -- One chunk that was read; `more` is the rest of the loop.
  emit : Bytes → Bytes → Option Bytes → Result Error Bytes → Result Error Bytes
  emit key chunk none more = err nonce_failed
  emit key chunk (some nonce) more = prepend (frame key nonce chunk) more

  -- The loop of `Encrypt` over chunks of `n` bytes, of which this is the `i`-th.
  unfoldable pub encrypt_loop : ℕ → ℕ → Bytes → Random → ℕ → Source → Result Error Bytes
  unfolding prepend at_end emit
  encrypt_loop n zero key rand i r = err out_of_fuel
  encrypt_loop n (suc fuel) key rand i r =
      let chunk = take n r.bytes in
      let rest = encrypt_loop n fuel key rand (i + 1) (record r { bytes = drop n r.bytes }) in
      let more = if ltb (length chunk) n then at_end r.fails else rest in
      if length chunk == 0 then at_end r.fails else emit key chunk (rand.nonce i) more

  salted : Bytes → Random → Source → Option Bytes → Result Error Bytes
  salted key rand r none = err salt_failed
  salted key rand r (some salt) =
      prepend (write_header salt)
        (encrypt_loop chunk_size (suc (length r.bytes)) (derive_key key salt) rand 0 r)

  unfoldable pub encrypt : Random → Source → Bytes → Result Error Bytes
  unfolding salted prepend
  encrypt rand r key = if length key == 0 then err empty_key else salted key rand r rand.salt

  opened : Option Bytes → Result Error Bytes → Result Error Bytes
  opened none more = err not_authentic
  opened (some plain) more = prepend plain more

  -- The loop of `Decrypt`. Fewer than four bytes of a length, like none, end it.
  unfoldable pub decrypt_loop : ℕ → Bytes → Bytes → Result Error Bytes
  unfolding prepend opened
  decrypt_loop zero key r = err out_of_fuel
  decrypt_loop (suc fuel) key r =
      let chunk_len = uint32 (take 4 r) in
      let sealed = take chunk_len (drop 4 r) in
      let rest = decrypt_loop fuel key (drop chunk_len (drop 4 r)) in
      if ltb (length r) 4
      then ok []
      else if ltb max_chunk_len chunk_len
      then err (chunk_too_long chunk_len)
      else if ltb (length sealed) chunk_len
      then err short_chunk
      else if ltb (length sealed) nonce_len
      then err no_nonce
      else opened (open_chunk key (take nonce_len sealed) (drop nonce_len sealed)) rest

  unfoldable pub decrypt : Bytes → Bytes → Result Error Bytes
  decrypt r key =
      if length key == 0
      then err empty_key
      else (read_header r >>= λ h.
          decrypt_loop (suc (length r)) (derive_key key h.salt) (drop header_len r))
