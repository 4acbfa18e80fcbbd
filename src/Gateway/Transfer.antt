-- ===== src/Gateway/Transfer.antt =====
-- src/gateway.rs: the export of a relay's events as lines of JSON, and the import of such lines. The
-- session check and the lookup of the relay's store stand before both and are those of the other
-- handlers; JSON and signatures are parameters, and the text of the multipart form is an argument.
use moar.Common.{
  ℕ, zero, suc, Bool, Option, none, some, List, [], ◌∷◌, ◌++◌, map, reverse, Bytes, length, ◌==◌,
  if◌then◌else◌,
}
use moar.Error.{Result, ok, err}
use moar.Nostr.{Event}
use moar.Server.{NostrStore}
use moar.Gateway.Session.{strip_prefix}

abbrev pub put_front : ℕ → List Bytes → List Bytes
put_front c [] = (c ∷ []) ∷ []
put_front c (line ∷ more) = (c ∷ line) ∷ more

-- `content.lines()`, without taking a carriage return off the end of a line: `trim` does.
unfoldable pub lines : Bytes → List Bytes
lines [] = []
lines (c ∷ cs) = let rest = lines cs in if c == 10 then [] ∷ rest else put_front c rest

-- The white space of Unicode, in UTF-8.
abbrev pub white_space : List Bytes
white_space =
    (9 ∷ [])
    ∷ (10 ∷ [])
    ∷ (11 ∷ [])
    ∷ (12 ∷ [])
    ∷ (13 ∷ [])
    ∷ (32 ∷ [])
    ∷ (194 ∷ 133 ∷ [])
    ∷ (194 ∷ 160 ∷ [])
    ∷ (225 ∷ 154 ∷ 128 ∷ [])
    ∷ (226 ∷ 128 ∷ 128 ∷ [])
    ∷ (226 ∷ 128 ∷ 129 ∷ [])
    ∷ (226 ∷ 128 ∷ 130 ∷ [])
    ∷ (226 ∷ 128 ∷ 131 ∷ [])
    ∷ (226 ∷ 128 ∷ 132 ∷ [])
    ∷ (226 ∷ 128 ∷ 133 ∷ [])
    ∷ (226 ∷ 128 ∷ 134 ∷ [])
    ∷ (226 ∷ 128 ∷ 135 ∷ [])
    ∷ (226 ∷ 128 ∷ 136 ∷ [])
    ∷ (226 ∷ 128 ∷ 137 ∷ [])
    ∷ (226 ∷ 128 ∷ 138 ∷ [])
    ∷ (226 ∷ 128 ∷ 168 ∷ [])
    ∷ (226 ∷ 128 ∷ 169 ∷ [])
    ∷ (226 ∷ 128 ∷ 175 ∷ [])
    ∷ (226 ∷ 129 ∷ 159 ∷ [])
    ∷ (227 ∷ 128 ∷ 128 ∷ [])
    ∷ []

-- What follows the first of these prefixes that a text has.
abbrev strip_any : List Bytes → Bytes → Option Bytes
strip_any [] s = none
strip_any (p ∷ ps) s = elim (strip_prefix p s) [ some rest ↦ some rest | none ↦ strip_any ps s ]

-- On fuel: the length of the text is enough, since each step takes a byte.
abbrev strip_all : ℕ → List Bytes → Bytes → Bytes
strip_all zero ps s = s
strip_all (suc n) ps s = elim (strip_any ps s) [ none ↦ s | some rest ↦ strip_all n ps rest ]

-- `line.trim()`
unfoldable pub trim_line : Bytes → Bytes
trim_line s =
    let front = strip_all (length s) white_space s in
    reverse (strip_all (length front) (map reverse white_space) (reverse front))

pub record ImportResult : Type 0 where
  pub imported : ℕ
  pub skipped : ℕ
  pub errors : ℕ

module _ (to_string : Event → Option Bytes) (from_str : Bytes → Option Event)
    (verify : Event → Bool) (S : NostrStore) where
  -- An event that cannot be written as JSON is left out.
  abbrev pub line_of : Option Bytes → Bytes
  line_of none = []
  line_of (some json) = json ++ (10 ∷ [])

  unfoldable pub export_body : List Event → Bytes
  export_body [] = []
  export_body (event ∷ events) = line_of (to_string event) ++ export_body events

  -- The body of the answer, or the answer 500.
  unfoldable pub export_relay : Result (List Event) → Option Bytes
  unfolding export_body
  export_relay (err why) = none
  export_relay (ok events) = some (export_body events)

  -- An event that is offered to the store.
  abbrev pub offer : Event → S.Store × ImportResult → S.Store × ImportResult
  offer event (store, r) = elim (S.save_event store event) [
    | ok saved ↦ (saved, record r { imported = suc r.imported })
    | err why ↦ (store, record r { skipped = suc r.skipped })
  ]

  abbrev failed : S.Store × ImportResult → S.Store × ImportResult
  failed (store, r) = (store, record r { errors = suc r.errors })

  -- One line without the white space around it.
  abbrev pub import_line : Bytes → S.Store × ImportResult → S.Store × ImportResult
  import_line [] so_far = so_far
  import_line (c ∷ cs) so_far = elim (from_str (c ∷ cs)) [
    | none ↦ failed so_far
    | some event ↦ if verify event then offer event so_far else failed so_far
  ]

  unfoldable pub import_lines : List Bytes → S.Store × ImportResult → S.Store × ImportResult
  unfolding trim_line
  import_lines [] so_far = so_far
  import_lines (line ∷ more) so_far = import_lines more (import_line (trim_line line) so_far)

  unfoldable pub import_relay : S.Store → Bytes → S.Store × ImportResult
  unfolding import_lines lines
  import_relay store content =
      import_lines (lines content) (store, record { imported = 0; skipped = 0; errors = 0 })

  -- The events offered to a store one after another.
  unfoldable pub offer_all : List Event → S.Store × ImportResult → S.Store × ImportResult
  offer_all [] so_far = so_far
  offer_all (event ∷ events) so_far = offer_all events (offer event so_far)
