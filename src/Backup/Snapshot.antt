-- ===== src/Backup/Snapshot.antt =====
-- What a snapshot of the object storage holds.
use mathlib.Core.Option.{get_or}
use vault_keeper.Prelude.{
  ◌≡◌, refl, ap, sym, ◌∙◌, subst, String, Bool, true, not, List, [], ◌∷◌, some, arith, ◌==◌,
  string_eq, eq_iff, filter, All, Has, Bool-cases, Option-cases, inl, inr,
}
use vault_keeper.Backup.Format.{Bytes}
use vault_keeper.Backup.Runs.{Ext, Entry, Storage, put_entry, read_objects, snapshot_minio}

-- An object that the storage has stands among the entries under its key.
abbrev pub Taken : Storage → List Entry → String → Type 0
Taken storage es key =
    (content : Bytes) × (storage.get_object key ≡ some content)
    × Has (record { name = key; content = content }) es

Has-filter :
    (p : Entry → Bool) (x : Entry) (es : List Entry) → p x ≡ true → Has x es → Has x (filter p es)
Has-filter p x [] y h = h
Has-filter p x (e ∷ es) y (inl same) = rw (same, y) (inl refl)
Has-filter p x (e ∷ es) y (inr h) = elim (Bool-cases (p e)) [
  | inl t ↦ rw t (inr (Has-filter p x es y h))
  | inr n ↦ rw n (Has-filter p x es y h)
]

-- A later object replaces one of its own name alone.
put_entry-Has :
    (e x : Entry) (es : List Entry)
    → ((x.name == e.name) ≡ true → e ≡ x)
    → Has x es
    → Has x (put_entry e es)
put_entry-Has e x es k h = elim (Bool-cases (x.name == e.name)) [
  | inl y ↦ inl (k y)
  | inr n ↦ inr (Has-filter _ x es (ap not n) h)
]

read_objects-Has :
    (storage : Storage) (keys : List String) (es out : List Entry) (key : String) (content : Bytes)
    → read_objects storage keys es ≡ some out
    → storage.get_object key ≡ some content
    → Has (record { name = key; content = content }) es
    → Has (record { name = key; content = content }) out
unfolding read_objects
read_objects-Has storage [] es out key content r g h = subst (Has _) (ap (λ o. get_or o es) r) h
read_objects-Has storage (k ∷ keys) es out key content r g h =
    elim (Option-cases (storage.get_object k)) [
      | inl n ↦ absurd (ground arith)
      | inr (c, y) ↦
          let same : (key == k) ≡ true
              → record { name = k; content = c } ≡ record { name = key; content = content } =
            λ t.
              let e = sym ((eq_iff key k).0 t) in
              ap (λ n. record { name = n; content = c }) e
              ∙ ap (λ d. record { name = key; content = d })
                  (ap (λ o. get_or o c) (sym y ∙ ap storage.get_object e ∙ g)) in
          read_objects-Has storage keys (put_entry (record { name = k; content = c }) es) out key
            content (rw (y, read_objects) at r) g
            (put_entry-Has (record { name = k; content = c })
              (record { name = key; content = content }) es same h)
    ]

read_objects-Taken :
    (storage : Storage) (keys : List String) (es out : List Entry)
    → read_objects storage keys es ≡ some out
    → All (Taken storage out) keys
unfolding read_objects
read_objects-Taken storage [] es out r = tt
read_objects-Taken storage (k ∷ keys) es out r = elim (Option-cases (storage.get_object k)) [
  | inl n ↦ absurd (ground arith)
  | inr (c, y) ↦
      let now = put_entry (record { name = k; content = c }) es in
      let r' = rw (y, read_objects) at r in
      (
        (c, y, read_objects-Has storage keys now out k c r' y (inl refl)),
        read_objects-Taken storage keys now out r',
      )
]

-- A snapshot that succeeds has each object that the storage lists.
pub snapshot_minio-Taken :
    (ext : Ext) (storage : Storage) (keys : List String) (objects : List Entry)
    → storage.list_objects ≡ some keys
    → snapshot_minio ext storage ≡ some objects
    → All (Taken storage objects) keys
unfolding snapshot_minio
snapshot_minio-Taken ext storage keys objects l h =
    read_objects-Taken storage keys _ objects (rw (l, snapshot_minio) at h)
