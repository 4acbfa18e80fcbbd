-- ===== src/Blossom/Deletion.antt =====
-- Who may delete a blob.
use moar.Common.{
  ℕ, ◌≡◌, refl, sym, ap, ◌⊎◌, inl, inr, true, Option, none, some, Bytes, bytes_eq, bytes_eq→eq,
  Bool-cases, Option-cases, true≢false,
}
use moar.HashMap.{get}
use moar.Nostr.{Event}
use moar.Blossom.Auth.{Authorizer, verify_blossom_auth, get_x_tag}
use moar.Blossom.Store.{BlobMeta, BlobStore, get_meta, delete_blob}
use moar.Blossom.{BlossomState, Response, reply, delete_handler, delete, names}

module _ (auth : Authorizer) (sha256_hex : Bytes → Bytes) where
  -- The event, the metadata and the result of a deletion that is carried out.
  pub record IsEntitled (state : BlossomState) (now : ℕ) (header : Option Bytes) (sha256 : Bytes)
      : Type 0 where
    pub event : Event
    pub meta : BlobMeta
    pub authorized : verify_blossom_auth auth now header delete ≡ some event
    pub asked : get_x_tag event.tags ≡ some sha256
    pub there : get state.store.blobs_db sha256 ≡ some meta
    pub own : meta.uploader ≡ auth.to_hex event.pubkey

  -- What a deletion does: nothing, or the whole of it, to who may.
  pub record IsDeletion (state : BlossomState) (now : ℕ) (header : Option Bytes) (sha256 : Bytes)
      (answer : BlobStore × Response) : Type 0 where
    pub outcome :
        (answer.0 ≡ state.store)
        ⊎ (IsEntitled state now header sha256
            × (answer.0 ≡ (delete_blob state.store sha256).0)
            × (answer.1 ≡ reply 204))

  names-eq : (o : Option Bytes) (s : Bytes) → names auth sha256_hex o s ≡ true → o ≡ some s
  names-eq none s h = absurd (true≢false (sym h))
  names-eq (some x) s h = ap some (bytes_eq→eq x s h)

  -- A request to delete a blob changes the store only if its authorization is valid for a deletion,
  -- its first `x` tag names the blob, and its author is the blob's uploader; then the blob is deleted
  -- and the answer is 204.
  pub delete_handler-IsDeletion :
      (state : BlossomState) (now : ℕ) (header : Option Bytes) (sha256 : Bytes)
      → IsDeletion state now header sha256 (delete_handler auth sha256_hex state now header sha256)
  unfolding delete_handler get_meta delete_blob
  delete_handler-IsDeletion state now header sha256 =
      elim (Option-cases (verify_blossom_auth auth now header delete)) [
        | inl denied ↦ rw (denied, delete_handler) (record { outcome = inl refl })
        | inr (event, shown) ↦
            elim (Bool-cases (names auth sha256_hex (get_x_tag event.tags) sha256)) [
              | inr unnamed ↦
                  rw (shown, delete_handler)
                    (rw (unnamed, delete_handler) (record { outcome = inl refl }))
              | inl named ↦ elim (Option-cases (get state.store.blobs_db sha256)) [
                | inl absent ↦
                    rw (shown, delete_handler)
                      (rw (named, delete_handler)
                        (rw (absent, delete_handler) (record { outcome = inl refl })))
                | inr (meta, there) ↦
                    elim (Bool-cases (bytes_eq meta.uploader (auth.to_hex event.pubkey))) [
                      | inr other ↦
                          rw (shown, delete_handler)
                            (rw (named, delete_handler)
                              (rw (there, delete_handler)
                                (rw (other, delete_handler) (record { outcome = inl refl }))))
                      | inl own ↦
                          rw (shown, delete_handler)
                            (rw (named, delete_handler)
                              (rw (there, delete_handler)
                                (rw (own, delete_handler)
                                  (record {
                                    outcome = inr (
                                      record {
                                        event = event;
                                        meta = meta;
                                        authorized = shown;
                                        asked = names-eq (get_x_tag event.tags) sha256 named;
                                        there = there;
                                        own = bytes_eq→eq _ _ own;
                                      },
                                      refl,
                                      rw (there, delete_blob) refl,
                                    );
                                  }))))
                    ]
              ]
            ]
      ]
