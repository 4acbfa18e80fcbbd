-- ===== src/Blossom/Serving.antt =====
-- What an upload leaves, and what is served afterwards.
use moar.Common.{
  ℕ, ◌≡◌, refl, sym, ap, ◌∙◌, inl, inr, true, Option, some, Bytes, bytes_eq_refl, length, ltb,
  Bool-cases, Option-cases, true≢false, ◌==◌,
}
use moar.HashMap.{get}
use moar.HashMap.Laws.{get-insert_at}
use moar.Blossom.Auth.{Authorizer, verify_blossom_auth}
use moar.Blossom.Store.{BlobMeta, meta_of, get_meta, save_blob}
use moar.Blossom.Coherent.{IsStored, IsCoherent, save_blob-IsCoherent}
use moar.Blossom.{
  BlossomState, Response, blob, put_upload, stored, get_blob, served, upload, without_ext,
  is_upload_allowed, max_size,
}

module _ (auth : Authorizer) (sha256_hex : Bytes → Bytes) where
  pub put_upload-IsCoherent :
      (state : BlossomState) (now : ℕ) (header : Option Bytes) (content_type body : Bytes)
      → IsCoherent sha256_hex state.store
      → IsCoherent sha256_hex (put_upload auth sha256_hex state now header content_type body).0
  unfolding put_upload get_meta
  put_upload-IsCoherent state now header content_type body c =
      elim (Option-cases (verify_blossom_auth auth now header upload)) [
        | inl denied ↦ rw (denied, put_upload) c
        | inr (event, shown) ↦
            elim (Bool-cases (is_upload_allowed state.config (auth.to_hex event.pubkey))) [
              | inr forbidden ↦ rw (shown, put_upload) (rw (forbidden, put_upload) c)
              | inl allowed ↦ elim (Bool-cases (ltb (max_size state.config) (length body))) [
                | inl long ↦
                    rw (shown, put_upload) (rw (allowed, put_upload) (rw (long, put_upload) c))
                | inr fits ↦
                    rw (shown, put_upload)
                      (rw (allowed, put_upload)
                        (rw (fits, put_upload) (either (auth.to_hex event.pubkey))))
              ]
            ]
      ]
    where
      either :
          (pubkey : Bytes)
          → IsCoherent sha256_hex (stored auth sha256_hex state now pubkey content_type body).0
      either pubkey = elim (Option-cases (get state.store.blobs_db (sha256_hex body))) [
        | inr (meta, there) ↦ rw (there, stored) c
        | inl absent ↦
            rw (absent, stored)
              (save_blob-IsCoherent sha256_hex state.store body content_type pubkey now c)
      ]

  -- An answer with a file of this hash, and its size in the header.
  pub record IsServed (h : Bytes) (answer : Response) : Type 0 where
    pub mime_type : Bytes
    pub file : Bytes
    pub answered :
        answer ≡ record { status_code = 200; content = blob mime_type (length file) (some file) }
    pub hashed : sha256_hex file ≡ h

  put_upload-listed :
      (state : BlossomState) (now : ℕ) (header : Option Bytes) (content_type body : Bytes)
      → ((put_upload auth sha256_hex state now header content_type body).1.status_code == 200)
        ≡ true
      → (meta : BlobMeta) × (get
            (put_upload auth sha256_hex state now header content_type body).0.blobs_db
            (sha256_hex body)
          ≡ some meta)
  unfolding put_upload get_meta save_blob
  put_upload-listed state now header content_type body ok =
      elim (Option-cases (verify_blossom_auth auth now header upload)) [
        | inl denied ↦ absurd (true≢false (sym (rw (denied, put_upload) at ok)))
        | inr (event, shown) ↦
            elim (Bool-cases (is_upload_allowed state.config (auth.to_hex event.pubkey))) [
              | inr forbidden ↦
                  absurd (
                    true≢false (sym (rw (forbidden, put_upload) at (rw (shown, put_upload) at ok))))
              | inl allowed ↦ elim (Bool-cases (ltb (max_size state.config) (length body))) [
                | inl long ↦ absurd (
                    true≢false (
                      sym (
                        rw (long, put_upload) at
                          (rw (allowed, put_upload) at (rw (shown, put_upload) at ok)))))
                | inr fits ↦
                    rw (shown, put_upload)
                      (rw (allowed, put_upload)
                        (rw (fits, put_upload) (either (auth.to_hex event.pubkey))))
              ]
            ]
      ]
    where
      either :
          (pubkey : Bytes)
          → (meta : BlobMeta) × (get
                (stored auth sha256_hex state now pubkey content_type body).0.blobs_db
                (sha256_hex body)
              ≡ some meta)
      either pubkey = elim (Option-cases (get state.store.blobs_db (sha256_hex body))) [
        | inr (meta, there) ↦ (meta, rw (there, stored) there)
        | inl absent ↦ (
          meta_of (sha256_hex body) body content_type pubkey now,
          rw (absent, stored)
              (get-insert_at state.store.blobs_db (sha256_hex body) (sha256_hex body) _
                (bytes_eq_refl (sha256_hex body))),
        )
      ]

  -- `served`, after the look-up of the metadata.
  answered_with :
      (state : BlossomState) (h : Bytes) (meta : BlobMeta)
      (kept : IsStored sha256_hex state.store h meta)
      → get state.store.blobs_db h ≡ some meta
      → served state h ≡ record {
        status_code = 200;
        content = blob meta.mime_type (length kept.file) (some kept.file);
      }
  unfolding get_meta
  answered_with state h meta kept listed =
      rw (listed, served) (rw (kept.on_disk, served) (rw kept.measured refl))

  -- An upload that is answered with 200 leaves a store from which the blob of its hash is served: the
  -- answer is 200, with a file that has the hash of the uploaded bytes, and with the file's size. The
  -- store is coherent, and the hash has no dot.
  pub put_upload-get :
      (state : BlossomState) (now : ℕ) (header : Option Bytes) (content_type body : Bytes)
      → IsCoherent sha256_hex state.store
      → without_ext (sha256_hex body) ≡ sha256_hex body
      → ((put_upload auth sha256_hex state now header content_type body).1.status_code == 200)
        ≡ true
      → IsServed (sha256_hex body) (
          get_blob
            (record state {
              store = (put_upload auth sha256_hex state now header content_type body).0;
            })
            (sha256_hex body))
  unfolding get_blob get_meta
  put_upload-get state now header content_type body c bare ok =
      let store = (put_upload auth sha256_hex state now header content_type body).0 in
      let (meta, listed) = put_upload-listed state now header content_type body ok in
      let kept =
        (put_upload-IsCoherent state now header content_type body c).backed (sha256_hex body) meta
          listed in
      record {
        mime_type = meta.mime_type;
        file = kept.file;
        answered =
            ap (served (record state { store = store })) bare
            ∙ answered_with (record state { store = store }) (sha256_hex body) meta kept listed;
        hashed = kept.hashed;
      }
