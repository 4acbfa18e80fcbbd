-- ===== src/Blossom/Steps.antt =====
-- The media store over any sequence of requests.
use moar.Common.{ℕ, ◌≡◌, sym, inl, inr, Option, [], Bytes, length, none_ne_some, subst}
use moar.Blossom.Auth.{Authorizer}
use moar.Blossom.Store.{BlobStore, save_blob, delete_blob}
use moar.Blossom.Coherent.{IsCoherent, save_blob-IsCoherent, delete_blob-IsCoherent}
use moar.Blossom.{BlossomState, put_upload, delete_handler}
use moar.Blossom.Deletion.{delete_handler-IsDeletion}
use moar.Blossom.Serving.{put_upload-IsCoherent}

module _ (auth : Authorizer) (sha256_hex : Bytes → Bytes) where
  delete_handler-IsCoherent :
      (size : ℕ) (hash_length : (body : Bytes) → length (sha256_hex body) ≡ size)
      (state : BlossomState) (now : ℕ) (header : Option Bytes) (sha256 : Bytes)
      → IsCoherent sha256_hex state.store
      → IsCoherent sha256_hex (delete_handler auth sha256_hex state now header sha256).0
  delete_handler-IsCoherent size hash_length state now header sha256 c =
      elim (delete_handler-IsDeletion auth sha256_hex state now header sha256).outcome [
        | inl same ↦ subst (IsCoherent sha256_hex) (sym same) c
        | inr (entitled, deleted, answered) ↦
            subst (IsCoherent sha256_hex) (sym deleted)
              (delete_blob-IsCoherent sha256_hex size hash_length state.store sha256 c)
      ]

  abbrev empty : BlobStore
  empty = record { blobs_db = []; uploaders_db = []; files = [] }

  -- The stores that the requests of clients, and the admin's uploads and deletions, lead to.
  pub data Reach : BlobStore → Type 0 where
    fresh : Reach empty
    uploaded :
        (state : BlossomState) (now : ℕ) (header : Option Bytes) (content_type body : Bytes)
        → Reach state.store
        → Reach (put_upload auth sha256_hex state now header content_type body).0
    deleted :
        (state : BlossomState) (now : ℕ) (header : Option Bytes) (sha256 : Bytes)
        → Reach state.store
        → Reach (delete_handler auth sha256_hex state now header sha256).0
    saved_by_admin :
        (store : BlobStore) (body mime_type uploader : Bytes) (now : ℕ)
        → Reach store
        → Reach (save_blob store (sha256_hex body) body mime_type uploader now).0
    deleted_by_admin :
        (store : BlobStore) (sha256 : Bytes) → Reach store → Reach (delete_blob store sha256).0

  -- After any sequence of uploads and deletions, by clients or by the admin, from an empty store: every
  -- entry of the metadata stands under the hash of the file that is stored for it, names that hash and
  -- the file's size, and its uploader is in the index. All hashes have one length.
  pub Reach-IsCoherent :
      (size : ℕ) (hash_length : (body : Bytes) → length (sha256_hex body) ≡ size)
      {store : BlobStore}
      → Reach store
      → IsCoherent sha256_hex store
  Reach-IsCoherent size hash_length fresh = record {
    backed = λ h meta at. absurd (none_ne_some at);
  }
  Reach-IsCoherent size hash_length (uploaded state now header content_type body r) =
      put_upload-IsCoherent auth sha256_hex state now header content_type body
        (Reach-IsCoherent size hash_length r)
  Reach-IsCoherent size hash_length (deleted state now header sha256 r) =
      delete_handler-IsCoherent size hash_length state now header sha256
        (Reach-IsCoherent size hash_length r)
  Reach-IsCoherent size hash_length (saved_by_admin store body mime_type uploader now r) =
      save_blob-IsCoherent sha256_hex store body mime_type uploader now
        (Reach-IsCoherent size hash_length r)
  Reach-IsCoherent size hash_length (deleted_by_admin store sha256 r) =
      delete_blob-IsCoherent sha256_hex size hash_length store sha256
        (Reach-IsCoherent size hash_length r)
