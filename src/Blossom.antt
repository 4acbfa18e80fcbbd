-- ===== src/Blossom.antt =====
-- src/blossom/handlers.rs: the media server. Its store answers every call; SHA-256 in hexadecimal is a
-- parameter.
pub mod Auth
pub mod Store
pub mod Descriptor
pub mod Coherent
pub mod Deletion
pub mod Serving
pub mod Steps
mod Tests
use moar.Common.{
  ℕ, ◌*◌, Bool, true, false, not, Option, none, some, List, [], ◌∷◌, map, Bytes, bytes_eq, elem,
  length, ltb, ◌==◌, if◌then◌else◌, is_some,
}
use moar.Config.{BlossomConfig}
use moar.HashMap.{HashMap, get}
use moar.Nostr.{Event}
use moar.Blossom.Auth.{Authorizer, verify_blossom_auth, get_x_tag}
use moar.Blossom.Store.{
  BlobMeta, BlobStore, has_blob, get_meta, save_blob, list_by_pubkey, delete_blob,
}
use moar.Blossom.Descriptor.{BlobDescriptor, from_meta}

pub record BlossomState : Type 0 where
  pub config : BlossomConfig
  pub store : BlobStore
  pub base_url : Bytes

pub data Content : Type 0 where
  nothing : Content
  -- The MIME type and the size of the headers, and the bytes of a `GET`.
  blob : Bytes → ℕ → Option Bytes → Content
  descriptor : BlobDescriptor → Content
  descriptors : List BlobDescriptor → Content

pub record Response : Type 0 where
  pub status_code : ℕ
  pub content : Content

abbrev pub reply : ℕ → Response
reply code = record { status_code = code; content = nothing }

-- `upload`, `delete` and `list`
abbrev pub upload : Bytes
upload = 117 ∷ 112 ∷ 108 ∷ 111 ∷ 97 ∷ 100 ∷ []

abbrev pub delete : Bytes
delete = 100 ∷ 101 ∷ 108 ∷ 101 ∷ 116 ∷ 101 ∷ []

abbrev pub listing : Bytes
listing = 108 ∷ 105 ∷ 115 ∷ 116 ∷ []

-- `sha256.split('.').next()`
abbrev pub without_ext : Bytes → Bytes
without_ext [] = []
without_ext (c ∷ cs) = if c == 46 then [] else c ∷ without_ext cs

abbrev pub served : BlossomState → Bytes → Response
served state sha256 = elim (get_meta state.store sha256) [
  | none ↦ reply 404
  | some meta ↦ elim (get state.store.files sha256) [
    | none ↦ reply 404
    | some file ↦ record { status_code = 200; content = blob meta.mime_type meta.size (some file) }
  ]
]

unfoldable pub get_blob : BlossomState → Bytes → Response
get_blob state path = served state (without_ext path)

unfoldable pub head_blob : BlossomState → Bytes → Response
head_blob state path = elim (get_meta state.store (without_ext path)) [
  | none ↦ reply 404
  | some meta ↦ record { status_code = 200; content = blob meta.mime_type meta.size none }
]

abbrev pub is_allowed : Option (List Bytes) → Bytes → Bool
is_allowed none pubkey = true
is_allowed (some allowed) pubkey = elem pubkey allowed

unfoldable pub is_upload_allowed : BlossomConfig → Bytes → Bool
is_upload_allowed config pubkey = is_allowed config.policy.upload.allowed_pubkeys pubkey

abbrev pub max_size : BlossomConfig → ℕ
max_size config = elim config.policy.max_file_size [ none ↦ 100 * 1024 * 1024 | some n ↦ n ]

module _ (auth : Authorizer) (sha256_hex : Bytes → Bytes) where
  unfoldable pub head_upload : BlossomState → ℕ → Option Bytes → Response
  head_upload state now header = elim (verify_blossom_auth auth now header upload) [
    | none ↦ reply 401
    | some event ↦
        if is_upload_allowed state.config (auth.to_hex event.pubkey) then reply 200 else reply 403
  ]

  -- A blob that is there already stays as it is.
  abbrev pub stored : BlossomState → ℕ → Bytes → Bytes → Bytes → BlobStore × Response
  stored state now pubkey content_type body = elim (get_meta state.store (sha256_hex body)) [
    | some meta ↦ (
      state.store,
      record { status_code = 200; content = descriptor (from_meta meta state.base_url) },
    )
    | none ↦
        let (store, meta) = save_blob state.store (sha256_hex body) body content_type pubkey now in
        (store, record { status_code = 200; content = descriptor (from_meta meta state.base_url) })
  ]

  -- `content_type` is the header's, or `application/octet-stream`.
  unfoldable pub put_upload : BlossomState → ℕ → Option Bytes → Bytes → Bytes → BlobStore × Response
  put_upload state now header content_type body =
      elim (verify_blossom_auth auth now header upload) [
        | none ↦ (state.store, reply 401)
        | some event ↦
            if is_upload_allowed state.config (auth.to_hex event.pubkey)
            then (if ltb (max_size state.config) (length body)
                then (state.store, reply 413)
                else stored state now (auth.to_hex event.pubkey) content_type body)
            else (state.store, reply 403)
      ]

  abbrev list_of : BlossomState → Bytes → Response
  list_of state pubkey = record {
    status_code = 200;
    content =
        descriptors (map (λ m. from_meta m state.base_url) (list_by_pubkey state.store pubkey));
  }

  unfoldable pub list_blobs : BlossomState → ℕ → Option Bytes → Bytes → Response
  list_blobs state now header pubkey =
      if state.config.policy.listing.require_auth
      then (elim (verify_blossom_auth auth now header listing) [
        | none ↦ reply 401
        | some event ↦
            if is_allowed state.config.policy.listing.allowed_pubkeys (auth.to_hex event.pubkey)
            then list_of state pubkey
            else reply 403
      ])
      else list_of state pubkey

  abbrev pub names : Option Bytes → Bytes → Bool
  names none sha256 = false
  names (some x) sha256 = bytes_eq x sha256

  unfoldable pub delete_handler : BlossomState → ℕ → Option Bytes → Bytes → BlobStore × Response
  unfolding delete_blob
  delete_handler state now header sha256 = elim (verify_blossom_auth auth now header delete) [
    | none ↦ (state.store, reply 401)
    | some event ↦
        if names (get_x_tag event.tags) sha256
        then (elim (get_meta state.store sha256) [
          | none ↦ (state.store, reply 404)
          | some meta ↦
              if bytes_eq meta.uploader (auth.to_hex event.pubkey)
              then (let (store, was_there) = delete_blob state.store sha256 in
                  (store, if was_there then reply 204 else reply 404))
              else (state.store, reply 403)
        ])
        else (state.store, reply 403)
  ]
