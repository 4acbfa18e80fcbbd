-- ===== src/Blossom/Descriptor.antt =====
-- src/blossom/handlers.rs: what a client is told of a blob. The texts are UTF-8.
use moar.Common.{ℕ, List, [], ◌∷◌, ◌++◌, Bytes, bytes_eq, if◌then◌else◌}
use moar.Blossom.Store.{BlobMeta}

-- The MIME types that have an extension, each with its extension.
abbrev extensions : List (Bytes × Bytes)
extensions =
    (105 ∷ 109 ∷ 97 ∷ 103 ∷ 101 ∷ 47 ∷ 112 ∷ 110 ∷ 103 ∷ [], 112 ∷ 110 ∷ 103 ∷ [])
    ∷ (105 ∷ 109 ∷ 97 ∷ 103 ∷ 101 ∷ 47 ∷ 106 ∷ 112 ∷ 101 ∷ 103 ∷ [], 106 ∷ 112 ∷ 103 ∷ [])
    ∷ (105 ∷ 109 ∷ 97 ∷ 103 ∷ 101 ∷ 47 ∷ 103 ∷ 105 ∷ 102 ∷ [], 103 ∷ 105 ∷ 102 ∷ [])
    ∷ (105 ∷ 109 ∷ 97 ∷ 103 ∷ 101 ∷ 47 ∷ 119 ∷ 101 ∷ 98 ∷ 112 ∷ [], 119 ∷ 101 ∷ 98 ∷ 112 ∷ [])
    ∷ (
      105 ∷ 109 ∷ 97 ∷ 103 ∷ 101 ∷ 47 ∷ 115 ∷ 118 ∷ 103 ∷ 43 ∷ 120 ∷ 109 ∷ 108 ∷ [],
      115 ∷ 118 ∷ 103 ∷ [],
    )
    ∷ (105 ∷ 109 ∷ 97 ∷ 103 ∷ 101 ∷ 47 ∷ 97 ∷ 118 ∷ 105 ∷ 102 ∷ [], 97 ∷ 118 ∷ 105 ∷ 102 ∷ [])
    ∷ (118 ∷ 105 ∷ 100 ∷ 101 ∷ 111 ∷ 47 ∷ 109 ∷ 112 ∷ 52 ∷ [], 109 ∷ 112 ∷ 52 ∷ [])
    ∷ (118 ∷ 105 ∷ 100 ∷ 101 ∷ 111 ∷ 47 ∷ 119 ∷ 101 ∷ 98 ∷ 109 ∷ [], 119 ∷ 101 ∷ 98 ∷ 109 ∷ [])
    ∷ (
      118 ∷ 105 ∷ 100 ∷ 101 ∷ 111 ∷ 47 ∷ 113 ∷ 117 ∷ 105 ∷ 99 ∷ 107 ∷ 116 ∷ 105 ∷ 109 ∷ 101 ∷ [],
      109 ∷ 111 ∷ 118 ∷ [],
    )
    ∷ (97 ∷ 117 ∷ 100 ∷ 105 ∷ 111 ∷ 47 ∷ 109 ∷ 112 ∷ 101 ∷ 103 ∷ [], 109 ∷ 112 ∷ 51 ∷ [])
    ∷ (97 ∷ 117 ∷ 100 ∷ 105 ∷ 111 ∷ 47 ∷ 111 ∷ 103 ∷ 103 ∷ [], 111 ∷ 103 ∷ 103 ∷ [])
    ∷ (97 ∷ 117 ∷ 100 ∷ 105 ∷ 111 ∷ 47 ∷ 119 ∷ 97 ∷ 118 ∷ [], 119 ∷ 97 ∷ 118 ∷ [])
    ∷ (97 ∷ 117 ∷ 100 ∷ 105 ∷ 111 ∷ 47 ∷ 102 ∷ 108 ∷ 97 ∷ 99 ∷ [], 102 ∷ 108 ∷ 97 ∷ 99 ∷ [])
    ∷ (
      97 ∷ 112 ∷ 112 ∷ 108 ∷ 105 ∷ 99 ∷ 97 ∷ 116 ∷ 105 ∷ 111 ∷ 110 ∷ 47 ∷ 112 ∷ 100 ∷ 102 ∷ [],
      112 ∷ 100 ∷ 102 ∷ [],
    )
    ∷ (116 ∷ 101 ∷ 120 ∷ 116 ∷ 47 ∷ 112 ∷ 108 ∷ 97 ∷ 105 ∷ 110 ∷ [], 116 ∷ 120 ∷ 116 ∷ [])
    ∷ (116 ∷ 101 ∷ 120 ∷ 116 ∷ 47 ∷ 104 ∷ 116 ∷ 109 ∷ 108 ∷ [], 104 ∷ 116 ∷ 109 ∷ 108 ∷ [])
    ∷ (
      97 ∷ 112 ∷ 112 ∷ 108 ∷ 105 ∷ 99 ∷ 97 ∷ 116 ∷ 105 ∷ 111 ∷ 110 ∷ 47 ∷ 106 ∷ 115 ∷ 111 ∷ 110
          ∷ [],
      106 ∷ 115 ∷ 111 ∷ 110 ∷ [],
    )
    ∷ []

abbrev ext_in : List (Bytes × Bytes) → Bytes → Bytes
ext_in [] mime = []
ext_in ((name, ext) ∷ rest) mime = if bytes_eq mime name then ext else ext_in rest mime

unfoldable pub mime_to_ext : Bytes → Bytes
mime_to_ext mime = ext_in extensions mime

pub record BlobDescriptor : Type 0 where
  pub url : Bytes
  pub sha256 : Bytes
  pub size : ℕ
  pub mime_type : Bytes
  pub uploaded : ℕ

abbrev url_of : Bytes → Bytes → Bytes → Bytes
url_of base_url sha256 [] = base_url ++ (47 ∷ sha256)
url_of base_url sha256 (c ∷ cs) = base_url ++ (47 ∷ (sha256 ++ (46 ∷ c ∷ cs)))

unfoldable pub from_meta : BlobMeta → Bytes → BlobDescriptor
unfolding mime_to_ext
from_meta meta base_url = record {
  url = url_of base_url meta.sha256 (mime_to_ext meta.mime_type);
  sha256 = meta.sha256;
  size = meta.size;
  mime_type = meta.mime_type;
  uploaded = meta.uploaded;
}
