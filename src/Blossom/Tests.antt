-- ===== src/Blossom/Tests.antt =====
-- An upload and a deletion.
use moar.Common.{◌≡◌, refl, ◌%◌, true, false, none, some, [], ◌∷◌, Bytes, length, bytes_eq}
use moar.Config.{BlossomConfig}
use moar.Nostr.{Event}
use moar.Blossom.Auth.{Authorizer, verify_blossom_auth, get_x_tag, t_name, x_name}
use moar.Blossom.Store.{BlobStore, save_blob, get_meta, has_blob}
use moar.Blossom.Coherent.{IsCoherent}
use moar.Blossom.Deletion.{IsDeletion, delete_handler-IsDeletion}
use moar.Blossom.Serving.{IsServed, put_upload-get}
use moar.Blossom.Steps.{fresh, uploaded, deleted, Reach-IsCoherent}
use moar.Blossom.{
  BlossomState, put_upload, delete_handler, get_blob, upload, delete, is_upload_allowed,
}

-- A hash of one byte, which is never a dot.
abbrev hash : Bytes → Bytes
hash [] = 0 ∷ []
hash (b ∷ bs) = b % 40 ∷ []

hash_length : (body : Bytes) → length (hash body) ≡ 1
hash_length [] = refl
hash_length (b ∷ bs) = refl

abbrev event : Event
event = record {
  id = [];
  pubkey = 97 ∷ [];
  created_at = 1000;
  kind = 24242;
  tags = (t_name ∷ upload ∷ []) ∷ (t_name ∷ delete ∷ []) ∷ (x_name ∷ (7 ∷ []) ∷ []) ∷ [];
  content = [];
}

abbrev auth : Authorizer
auth = record { decode = λ h. some event; verify = λ e. true; to_hex = λ k. k }

abbrev empty_store : BlobStore
empty_store = record { blobs_db = []; uploaders_db = []; files = [] }

abbrev config : BlossomConfig
config = record {
  name = [];
  description = none;
  subdomain = [];
  storage_path = [];
  policy = record {
    upload = record { allowed_pubkeys = some ((97 ∷ []) ∷ []) };
    listing = record { require_auth = false; allowed_pubkeys = none };
    max_file_size = some 3;
  };
}

abbrev state_of : BlobStore → BlossomState
state_of store = record { config = config; store = store; base_url = [] }

abbrev body : Bytes
body = 7 ∷ 8 ∷ []

abbrev after_upload : BlobStore
after_upload = (put_upload auth hash (state_of empty_store) 1000 (some []) [] body).0

abbrev after_delete : BlobStore
after_delete = (delete_handler auth hash (state_of after_upload) 1030 (some []) (7 ∷ [])).0

Reach-IsCoherent_example : IsCoherent hash after_delete
Reach-IsCoherent_example = Reach-IsCoherent auth hash 1 hash_length (
    deleted (state_of after_upload) 1030 (some []) (7 ∷ [])
      (uploaded (state_of empty_store) 1000 (some []) [] body fresh))

delete_handler-IsDeletion_example :
    IsDeletion auth hash
      (state_of after_upload)
      1030
      (some [])
      (7 ∷ [])
      (delete_handler auth hash (state_of after_upload) 1030 (some []) (7 ∷ []))
delete_handler-IsDeletion_example =
    delete_handler-IsDeletion auth hash (state_of after_upload) 1030 (some []) (7 ∷ [])

put_upload-get_example : IsServed auth hash (7 ∷ []) (get_blob (state_of after_upload) (7 ∷ []))
unfolding put_upload verify_blossom_auth bytes_eq is_upload_allowed get_meta
put_upload-get_example =
    put_upload-get auth hash (state_of empty_store) 1000 (some []) [] body
      (Reach-IsCoherent auth hash 1 hash_length fresh) refl refl

-- The blob is there, and then it is gone.
stored_then_deleted :
    (get_meta after_delete (7 ∷ []) ≡ none) × (has_blob after_upload (7 ∷ []) ≡ true)
unfolding put_upload get_meta delete_handler verify_blossom_auth bytes_eq get_x_tag
    is_upload_allowed save_blob has_blob
stored_then_deleted = (refl, refl)
