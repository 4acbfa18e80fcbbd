-- ===== src/Gateway/Import.antt =====
-- An export that is imported again.
use moar.Common.{
  ℕ, ◌+◌, ◌⊎◌, inl, inr, length, arith, ◌≡◌, refl, sym, ap, ◌∙◌, Bool, true, false, Option, some,
  List, [], ◌∷◌, ◌++◌, append_assoc, Bytes, ◌==◌, All, some_inj,
}
use moar.Error.{Error, Result, ok, err}
use moar.Nostr.{Event}
use moar.Server.{NostrStore}
use moar.Gateway.Transfer.{
  lines, put_front, trim_line, ImportResult, export_body, export_relay, line_of, offer, import_line,
  import_lines, import_relay, offer_all,
}

module _ (to_string : Event → Option Bytes) (from_str : Bytes → Option Event)
    (verify : Event → Bool) where
  -- An event whose JSON is one line, with no white space around it, that is read back as the event,
  -- and whose signature verifies.
  pub record IsExportable (event : Event) : Type 0 where
    pub first : ℕ
    pub rest : Bytes
    pub written : to_string event ≡ some (first ∷ rest)
    pub one_line : All (λ c. (c == 10) ≡ false) (first ∷ rest)
    pub trimmed : trim_line (first ∷ rest) ≡ first ∷ rest
    pub read_back : from_str (first ∷ rest) ≡ some event
    pub signed : verify event ≡ true

Result-cases :
    {T : Type 0} (r : Result T) → ((t : T) × (r ≡ ok t)) ⊎ ((why : Error) × (r ≡ err why))
Result-cases (ok t) = inl (t, refl)
Result-cases (err why) = inr (why, refl)

lines_of_line :
    (json more : Bytes)
    → All (λ c. (c == 10) ≡ false) json
    → lines (json ++ (10 ∷ more)) ≡ json ∷ lines more
unfolding lines
lines_of_line [] more h = refl
lines_of_line (c ∷ cs) more h = rw h.0 (ap (put_front c) (lines_of_line cs more h.1))

module _ (to_string : Event → Option Bytes) (from_str : Bytes → Option Event)
    (verify : Event → Bool) (S : NostrStore) where
  no_lines :
      (so_far : S.Store × ImportResult)
      → import_lines to_string from_str verify S (lines []) so_far ≡ so_far
  unfolding lines import_lines
  no_lines so_far = refl

  -- What a count looks like after some events were offered.
  record IsCounted (n : ℕ) (before after : ImportResult) : Type 0 where
    offered : after.imported + after.skipped ≡ before.imported + before.skipped + n
    no_error : after.errors ≡ before.errors

  offer-IsCounted :
      (event : Event) (so_far : S.Store × ImportResult)
      → IsCounted 1 so_far.1 (offer to_string from_str verify S event so_far).1
  offer-IsCounted event (store, r) = elim (Result-cases (S.save_event store event)) [
    | inl (saved, done) ↦ rw (done, offer) (record { offered = omega arith; no_error = refl })
    | inr (why, failed) ↦ rw (failed, offer) (record { offered = omega arith; no_error = refl })
  ]

  offer_all-IsCounted :
      (events : List Event) (so_far : S.Store × ImportResult)
      → IsCounted (length events) so_far.1 (offer_all to_string from_str verify S events so_far).1
  unfolding offer_all
  offer_all-IsCounted [] so_far = record { offered = omega arith; no_error = refl }
  offer_all-IsCounted (event ∷ events) so_far =
      let one = offer-IsCounted event so_far in
      let more = offer_all-IsCounted events (offer to_string from_str verify S event so_far) in
      let a = one.offered in
      let b = more.offered in
      record { offered = omega arith; no_error = more.no_error ∙ one.no_error }

  import_export_lines :
      (events : List Event) (so_far : S.Store × ImportResult)
      → All (IsExportable to_string from_str verify) events
      → import_lines to_string from_str verify S
          (lines (export_body to_string from_str verify S events))
          so_far
        ≡ offer_all to_string from_str verify S events so_far
  unfolding export_body import_lines offer_all
  import_export_lines [] so_far h = no_lines so_far
  import_export_lines (event ∷ events) so_far h =
      let json = h.0.first ∷ h.0.rest in
      let more = export_body to_string from_str verify S events in
      let cut : lines (line_of to_string from_str verify S (to_string event) ++ more)
          ≡ json ∷ lines more =
        ap (λ o. lines (line_of to_string from_str verify S o ++ more)) h.0.written
        ∙ (ap lines (append_assoc json (10 ∷ []) more) ∙ lines_of_line json more h.0.one_line) in
      let taken : import_line to_string from_str verify S (trim_line json) so_far
          ≡ offer to_string from_str verify S event so_far =
        ap (λ l. import_line to_string from_str verify S l so_far) h.0.trimmed
        ∙ rw (h.0.read_back, import_line) (rw h.0.signed refl) in
      ap (λ ls. import_lines to_string from_str verify S ls so_far) cut
      ∙ (ap (import_lines to_string from_str verify S (lines more)) taken
          ∙ import_export_lines events (offer to_string from_str verify S event so_far) h.1)

  -- Importing the export of a relay's events offers exactly these events to the store, in their order,
  -- and counts each as imported or skipped, and none as an error. The JSON of each event is one line
  -- without white space around it, it is read back as the event, and its signature verifies.
  pub import_relay-export_relay :
      (events : List Event) (body : Bytes) (store : S.Store)
      → All (IsExportable to_string from_str verify) events
      → export_relay to_string from_str verify S (ok events) ≡ some body
      → let result = import_relay to_string from_str verify S store body in
        (result.0
          ≡ (offer_all to_string from_str verify S events
              (store, record { imported = 0; skipped = 0; errors = 0 })).0)
        × (result.1.imported + result.1.skipped ≡ length events)
        × (result.1.errors ≡ 0)
  unfolding export_relay import_relay
  import_relay-export_relay events body store h exported =
      let none_yet : ImportResult = record { imported = 0; skipped = 0; errors = 0 } in
      let same : import_relay to_string from_str verify S store body
          ≡ offer_all to_string from_str verify S events (store, none_yet) =
        ap (import_relay to_string from_str verify S store) (sym (some_inj exported))
        ∙ import_export_lines events (store, none_yet) h in
      let counted = offer_all-IsCounted events (store, none_yet) in
      (
        ap (λ r. r.0) same,
        ap (λ r. r.1.imported + r.1.skipped) same ∙ (counted.offered ∙ omega arith),
        ap (λ r. r.1.errors) same ∙ counted.no_error,
      )
