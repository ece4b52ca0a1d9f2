-- ===== src/Custody/Binding.antt =====
-- What the last hash of a chain fixes, and what an entry's own hash does not.
use Prim.Native.String.{◌++◌ as str_append, count}
use text.Mathlib.TextLemmas.{append_assoc, append_inj}
use vault_keeper.Prelude.{String, ◌≡◌, refl, sym, ◌∙◌, List, [], ◌∷◌, arith, map, length, true}
use vault_keeper.Custody.{Ext, Event, Time}
use vault_keeper.Custody.Hash.{compute_log_hash, entry_text}
use vault_keeper.Custody.Verify.{IsLinked, IsChain, verify_events, verify_events_iff}
use vault_keeper.Custody.Append.{end_hash}

module _ (ext : Ext) where
  open ext use {sha256_hex}

  -- The digests of the entries at one place of two chains agree only if the hashed texts do.
  abbrev pub NoCollision : String → String → List Event → List Event → Type 0
  NoCollision p q (x ∷ xs) (y ∷ ys) =
      (sha256_hex (str_append p (entry_text ext x)) ≡ sha256_hex (str_append q (entry_text ext y))
        → str_append p (entry_text ext x) ≡ str_append q (entry_text ext y))
      × NoCollision x.hash_value y.hash_value xs ys
  NoCollision p q _ _ = Unit

  hash-count :
      ((s t : String) → count (sha256_hex s) ≡ count (sha256_hex t))
      → (p q : String) (x y : Event) → IsLinked ext p x
      → IsLinked ext q y
      → count x.hash_value ≡ count y.hash_value
  unfolding compute_log_hash
  hash-count fixed p q x y l m = rw (l.hashed, m.hashed) (fixed _ _)

  same_texts :
      ((s t : String) → count (sha256_hex s) ≡ count (sha256_hex t))
      → (p q : String) (xs ys : List Event) → count p ≡ count q
      → length xs ≡ length ys
      → NoCollision p q xs ys
      → IsChain ext p xs
      → IsChain ext q ys
      → end_hash p xs ≡ end_hash q ys
      → (p ≡ q) × (map (entry_text ext) xs ≡ map (entry_text ext) ys)
  unfolding compute_log_hash
  same_texts fixed p q [] [] n l k c d e = (e, refl)
  same_texts fixed p q [] (y ∷ ys) n l k c d e = absurd (omega arith)
  same_texts fixed p q (x ∷ xs) [] n l k c d e = absurd (omega arith)
  same_texts fixed p q (x ∷ xs) (y ∷ ys) n l k c d e =
      let (h, m) =
        same_texts fixed x.hash_value y.hash_value xs ys (hash-count fixed p q x y c.0 d.0)
          (omega arith) k.1 c.1 d.1 e in
      let (u, v) = append_inj (k.0 (sym c.0.hashed ∙ h ∙ d.0.hashed)) n in (u, cc)

  -- Two case histories of the same number of entries that both verify, and whose last entries have
  -- the same hash, have the same hashed text at every entry: provided that digests have one length,
  -- and that no two texts hashed at one place of the two histories collide.
  pub verified_same_texts :
      (at at' : Time) (xs ys : List Event)
      → ((s t : String) → count (sha256_hex s) ≡ count (sha256_hex t))
      → NoCollision "" "" xs ys
      → length xs ≡ length ys
      → (verify_events ext at xs).valid ≡ true
      → (verify_events ext at' ys).valid ≡ true
      → end_hash "" xs ≡ end_hash "" ys
      → map (entry_text ext) xs ≡ map (entry_text ext) ys
  verified_same_texts at at' xs ys fixed k l v w e =
      (same_texts fixed "" "" xs ys refl l k ((verify_events_iff ext at xs).0 v)
        ((verify_events_iff ext at' ys).0 w) e).1

  -- The separator is not escaped: moving a part of the action behind a bar over to the actor leaves
  -- the hash as it was.
  hash_boundary :
      (p actor part action : String) (e : Event)
      → compute_log_hash ext p
          (record e { actor_user_id = str_append actor (str_append "|" part); action = action })
        ≡ compute_log_hash ext p
            (record e { actor_user_id = actor; action = str_append part (str_append "|" action) })
  unfolding compute_log_hash entry_text
  hash_boundary p actor part action e = simp (append_assoc, compute_log_hash, entry_text)
