-- ===== src/Blossom/Coherent.antt =====
-- The media store's three parts agree, and each blob has the hash that it is named by.
use moar.Common.{
  ℕ, ◌≡◌, refl, sym, ap, ◌∙◌, inl, inr, false, some, Bytes, bytes_eq, bytes_eq_refl, bytes_eq→eq,
  length, length-append, drop, drop_left, Bool-cases, Option-cases, none_ne_some, true≢false, subst,
  arith,
}
use moar.HashMap.{HashMap, get, insert, remove}
use moar.HashMap.Laws.{get-insert_at, get-insert_off, get-remove_at, get-remove_off}
use moar.Gateway.Apart.{get-insert_cases, get-remove_some}
use moar.Blossom.Store.{
  BlobMeta, BlobStore, meta_of, uploader_key, uploader_prefix, save_blob, delete_blob,
}

module _ (sha256_hex : Bytes → Bytes) where
  -- What stands behind an entry of the metadata.
  pub record IsStored (store : BlobStore) (h : Bytes) (meta : BlobMeta) : Type 0 where
    pub file : Bytes
    pub on_disk : get store.files h ≡ some file
    pub hashed : sha256_hex file ≡ h
    pub named : meta.sha256 ≡ h
    pub measured : meta.size ≡ length file
    pub indexed : get store.uploaders_db (uploader_key meta.uploader h) ≡ some tt

  pub record IsCoherent (store : BlobStore) : Type 0 where
    pub backed :
        (h : Bytes) (meta : BlobMeta) → get store.blobs_db h ≡ some meta → IsStored store h meta

  pub save_blob-IsCoherent :
      (store : BlobStore) (body mime_type uploader : Bytes) (now : ℕ)
      → IsCoherent store
      → IsCoherent (save_blob store (sha256_hex body) body mime_type uploader now).0
  unfolding save_blob
  save_blob-IsCoherent store body mime_type uploader now c =
      let name = sha256_hex body in
      let new = meta_of name body mime_type uploader now in
      record {
        backed = λ h meta at. elim (get-insert_cases store.blobs_db name h new meta at) [
          | inl (here, is_new) ↦
              subst (λ m. IsStored (save_blob store name body mime_type uploader now).0 h m) is_new
                (record {
                  file = body;
                  on_disk =
                      get-insert_at store.files name h body
                        (ap (bytes_eq name) (sym here) ∙ bytes_eq_refl name);
                  hashed = here;
                  named = here;
                  measured = refl;
                  indexed =
                      get-insert_at store.uploaders_db (uploader_key uploader name)
                        (uploader_key uploader h) tt
                        (ap (λ x. bytes_eq (uploader_key uploader name) (uploader_key uploader x))
                            (sym here)
                          ∙ bytes_eq_refl (uploader_key uploader name));
                })
          | inr (other, old) ↦
              let kept = c.backed h meta old in
              record {
                file = kept.file;
                on_disk = get-insert_off store.files name h body other ∙ kept.on_disk;
                hashed = kept.hashed;
                named = kept.named;
                measured = kept.measured;
                indexed =
                    still_there store.uploaders_db (uploader_key uploader name) _ kept.indexed;
              }
        ];
      }
    where
      still_there :
          (m : HashMap Unit) (k j : Bytes) → get m j ≡ some tt → get (insert m k tt) j ≡ some tt
      still_there m k j h = elim (Bool-cases (bytes_eq k j)) [
        | inl same ↦ get-insert_at m k j tt same
        | inr other ↦ get-insert_off m k j tt other ∙ h
      ]

  -- A key of the uploaders determines the hash at its end.
  key_hash : (a b h k : Bytes) → length h ≡ length k → uploader_key a h ≡ uploader_key b k → h ≡ k
  key_hash a b h k same_length same =
      let size_a = length-append (uploader_prefix a) h in
      let size_b = length-append (uploader_prefix b) k in
      let sizes = ap length same in
      let prefixes : length (uploader_prefix b) ≡ length (uploader_prefix a) = omega arith in
      sym (drop_left (length (uploader_prefix a)) (uploader_prefix a) h refl)
      ∙ (ap (drop (length (uploader_prefix a))) same
          ∙ drop_left (length (uploader_prefix a)) (uploader_prefix b) k prefixes)

  module _ (size : ℕ) (hash_length : (body : Bytes) → length (sha256_hex body) ≡ size) where
    pub delete_blob-IsCoherent :
        (store : BlobStore) (name : Bytes)
        → IsCoherent store
        → IsCoherent (delete_blob store name).0
    unfolding delete_blob
    delete_blob-IsCoherent store name c = elim (Option-cases (get store.blobs_db name)) [
      | inl absent ↦ rw (absent, delete_blob) c
      | inr (gone, there) ↦
          rw (there, delete_blob)
            (record {
              backed = λ h meta at.
                  let kept = c.backed h meta (get-remove_some store.blobs_db name h meta at) in
                  let other = distinct h meta at in
                  let lost = c.backed name gone there in
                  let sizes : length name ≡ length h =
                    sym (ap length lost.hashed)
                    ∙ (hash_length lost.file
                        ∙ (sym (hash_length kept.file) ∙ ap length kept.hashed)) in
                  record {
                    file = kept.file;
                    on_disk = get-remove_off store.files name h other ∙ kept.on_disk;
                    hashed = kept.hashed;
                    named = kept.named;
                    measured = kept.measured;
                    indexed =
                        get-remove_off store.uploaders_db (uploader_key gone.uploader name)
                          (uploader_key meta.uploader h)
                          (apart gone.uploader meta.uploader h sizes other)
                        ∙ kept.indexed;
                  };
            })
    ]
      where
        distinct :
            (h : Bytes) (meta : BlobMeta)
            → get (remove store.blobs_db name) h ≡ some meta
            → bytes_eq name h ≡ false
        distinct h meta at = elim (Bool-cases (bytes_eq name h)) [
          | inl same ↦ absurd (none_ne_some (sym (get-remove_at store.blobs_db name h same) ∙ at))
          | inr other ↦ other
        ]

        apart :
            (a b h : Bytes)
            → length name ≡ length h
            → bytes_eq name h ≡ false
            → bytes_eq (uploader_key a name) (uploader_key b h) ≡ false
        apart a b h sizes other =
            elim (Bool-cases (bytes_eq (uploader_key a name) (uploader_key b h))) [
              | inr differ ↦ differ
              | inl same ↦
                  let e = key_hash a b name h sizes (bytes_eq→eq _ _ same) in
                  absurd
                    (true≢false (sym (ap (bytes_eq name) (sym e) ∙ bytes_eq_refl name) ∙ other))
            ]
