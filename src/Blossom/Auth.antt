-- ===== src/Blossom/Auth.antt =====
-- src/blossom/auth.rs: the authorization of a media request. Decoding the header is a parameter: the
-- base64 and the JSON are other crates'.
use moar.Common.{
  ℕ, ◌-◌, Bool, false, ◌&&◌, Option, none, some, List, [], ◌∷◌, Bytes, bytes_eq, any, ltb, ◌==◌,
  if◌then◌else◌,
}
use moar.Nostr.{Event, Tag}

-- What `verify_blossom_auth` uses of other crates: the event of an `Authorization` header, if it has
-- one, and the signature check.
pub record Authorizer : Type 0 where
  pub decode : Bytes → Option Event
  pub verify : Event → Bool
  pub to_hex : Bytes → Bytes

-- Whether a tag has this name and this value.
abbrev pub is_tag : Bytes → Bytes → Tag → Bool
is_tag name value (n ∷ v ∷ rest) = bytes_eq n name && bytes_eq v value
is_tag name value _ = false

abbrev pub t_name : Bytes
t_name = 116 ∷ []

abbrev pub x_name : Bytes
x_name = 120 ∷ []

-- `none` is the error, which is answered with 401 whatever its message.
unfoldable pub verify_blossom_auth : Authorizer → ℕ → Option Bytes → Bytes → Option Event
verify_blossom_auth auth now none expected_action = none
verify_blossom_auth auth now (some header) expected_action = elim (auth.decode header) [
  | none ↦ none
  | some event ↦
      let apart =
        if ltb event.created_at now then now - event.created_at else event.created_at - now in
      if auth.verify event
      then (if event.kind == 24242
          then (if ltb 60 apart
              then none
              else (if any (is_tag t_name expected_action) event.tags then some event else none))
          else none)
      else none
]

-- The value of the first `x` tag that has one.
unfoldable pub get_x_tag : List Tag → Option Bytes
get_x_tag [] = none
get_x_tag ((n ∷ v ∷ rest) ∷ tags) =
    let later = get_x_tag tags in if bytes_eq n x_name then some v else later
get_x_tag (_ ∷ tags) = get_x_tag tags
