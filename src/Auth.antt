-- ===== src/Auth.antt =====
-- src/auth.rs: the check of a NIP-98 login event. The signature check is a parameter: it is the
-- nostr crate's.
mod Tests
use moar.Common.{
  ℕ, ◌+◌, ◌-◌, ◌≤◌, ◌≡◌, ◌↔◌, ◌⊎◌, refl, inl, inr, Bool, true, false, Option, none, some, ltb, ◌==◌,
  if◌then◌else◌, arith,
}
use moar.Nostr.{Event}

pub data AuthError : Type 0 where
  invalid_signature invalid_kind too_old_or_in_future : AuthError

-- `none` is `Ok(())`. The URL and the method are not read.
unfoldable pub verify_auth_event : (Event → Bool) → ℕ → Event → Option AuthError
verify_auth_event verify now event =
    let apart =
      if ltb event.created_at now then now - event.created_at else event.created_at - now in
    if verify event
    then (if event.kind == 27235
        then (if ltb 60 apart then some too_old_or_in_future else none)
        else some invalid_kind)
    else some invalid_signature

-- What an event needs in order to be a login.
pub record IsLogin (verify : Event → Bool) (now : ℕ) (event : Event) : Type 0 where
  pub signed : verify event ≡ true
  pub http_auth : event.kind ≡ 27235
  pub not_old : now ≤ event.created_at + 60
  pub not_ahead : event.created_at ≤ now + 60

-- A login event is accepted if and only if its signature verifies, its kind is 27235, and it was made
-- at most 60 seconds before or after the time of the check.
pub verify_auth_event-accepts :
    (verify : Event → Bool) (now : ℕ) (event : Event)
    → (verify_auth_event verify now event ≡ none) ↔ IsLogin verify now event
unfolding verify_auth_event
verify_auth_event-accepts verify now event = (
  λ h. record {
    signed = ground arith;
    http_auth = ground arith;
    not_old = ground arith;
    not_ahead = ground arith;
  },
  λ login.
      let s = login.signed in
      let k = login.http_auth in let o = login.not_old in let a = login.not_ahead in ground arith,
)
