-- ===== src/Blossom/Store.antt =====
-- src/blossom/store.rs: the media store, its two databases and its files. The JSON of the metadata is
-- read back as it was written. A database or a file system that
-- fails is not modelled.
use moar.Common.{
  ℕ, Bool, true, false, Option, none, some, List, [], ◌∷◌, ◌++◌, Bytes, length, ltb, if◌then◌else◌,
  is_some,
}
use moar.HashMap.{HashMap, get, insert, remove}
use moar.Gateway.Session.{strip_prefix}

pub record BlobMeta : Type 0 where
  pub sha256 : Bytes
  pub size : ℕ
  pub mime_type : Bytes
  pub uploaded : ℕ
  pub uploader : Bytes

-- `files` are the files of the storage directory, by the hash in their paths.
pub record BlobStore : Type 0 where
  pub blobs_db : HashMap BlobMeta
  pub uploaders_db : HashMap Unit
  pub files : HashMap Bytes

-- `pubkey:`
abbrev pub uploader_prefix : Bytes → Bytes
uploader_prefix pubkey = pubkey ++ (58 ∷ [])

abbrev pub uploader_key : Bytes → Bytes → Bytes
uploader_key pubkey sha256 = uploader_prefix pubkey ++ sha256

unfoldable pub has_blob : BlobStore → Bytes → Bool
has_blob store sha256 = is_some (get store.blobs_db sha256)

unfoldable pub get_meta : BlobStore → Bytes → Option BlobMeta
get_meta store sha256 = get store.blobs_db sha256

abbrev pub meta_of : Bytes → Bytes → Bytes → Bytes → ℕ → BlobMeta
meta_of sha256 data_bytes mime_type uploader now = record {
  sha256 = sha256;
  size = length data_bytes;
  mime_type = mime_type;
  uploaded = now;
  uploader = uploader;
}

unfoldable pub save_blob : BlobStore → Bytes → Bytes → Bytes → Bytes → ℕ → BlobStore × BlobMeta
save_blob store sha256 data_bytes mime_type uploader now =
    let meta = meta_of sha256 data_bytes mime_type uploader now in
    (
      record {
        blobs_db = insert store.blobs_db sha256 meta;
        uploaders_db = insert store.uploaders_db (uploader_key uploader sha256) tt;
        files = insert store.files sha256 data_bytes;
      },
      meta,
    )

-- `sort_by(|a, b| b.uploaded.cmp(&a.uploaded))`, which is stable.
unfoldable pub place : BlobMeta → List BlobMeta → List BlobMeta
place m [] = m ∷ []
place m (n ∷ rest) =
    let later = place m rest in if ltb m.uploaded n.uploaded then n ∷ later else m ∷ n ∷ rest

unfoldable pub sorted : List BlobMeta → List BlobMeta
unfolding place
sorted [] = []
sorted (m ∷ rest) = place m (sorted rest)

-- The metadata behind one key of the uploaders.
abbrev pub listed : BlobStore → Bytes → Bytes → List BlobMeta
listed store pubkey key = elim (strip_prefix (uploader_prefix pubkey) key) [
  | none ↦ []
  | some sha256 ↦ elim (get store.blobs_db sha256) [ none ↦ [] | some meta ↦ meta ∷ [] ]
]

-- The loop over the uploaders.
abbrev pub collect_by : BlobStore → Bytes → HashMap Unit → List BlobMeta
collect_by store pubkey [] = []
collect_by store pubkey ((key, u) ∷ rest) = listed store pubkey key ++ collect_by store pubkey rest

unfoldable pub list_by_pubkey : BlobStore → Bytes → List BlobMeta
unfolding sorted
list_by_pubkey store pubkey = sorted (collect_by store pubkey store.uploaders_db)

abbrev metas : HashMap BlobMeta → List BlobMeta
metas [] = []
metas ((sha256, meta) ∷ rest) = meta ∷ metas rest

unfoldable pub list_all : BlobStore → List BlobMeta
unfolding sorted
list_all store = sorted (metas store.blobs_db)

-- The uploader's key is that of the metadata. Returns whether there was a blob.
unfoldable pub delete_blob : BlobStore → Bytes → BlobStore × Bool
delete_blob store sha256 = elim (get store.blobs_db sha256) [
  | none ↦ (store, false)
  | some meta ↦ (
    record {
      blobs_db = remove store.blobs_db sha256;
      uploaders_db = remove store.uploaders_db (uploader_key meta.uploader sha256);
      files = remove store.files sha256;
    },
    true,
  )
]
