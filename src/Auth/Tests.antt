-- ===== src/Auth/Tests.antt =====
-- A login event at the edge of the window.
use moar.Common.{◌≡◌, refl, true, none, some, []}
use moar.Nostr.{Event}
use moar.Auth.{verify_auth_event, AuthError}

abbrev login : Event
login = record { id = []; pubkey = []; created_at = 1000; kind = 27235; tags = []; content = [] }

in_time : verify_auth_event (λ e. true) 1060 login ≡ none
unfolding verify_auth_event
in_time = refl

-- A second later it is too old.
late : verify_auth_event (λ e. true) 1061 login ≡ some AuthError.too_old_or_in_future
unfolding verify_auth_event
late = refl
