-- ===== src/Gateway/Session.antt =====
-- src/gateway.rs: the admin's sessions.
use moar.Common.{
  ℕ, ◌+◌, ◌-◌, ◌*◌, ◌^◌, ◌%◌, Bool, ◌⊎◌, inl, inr, Option, none, some, List, [], ◌∷◌, ◌++◌, reverse,
  Bytes, bytes_eq, ltb, ◌==◌, ◌||◌, if◌then◌else◌,
}
use moar.Auth.{verify_auth_event}
use moar.HashMap.{HashMap, get, insert, remove}
use moar.Nostr.{Event}
use moar.Gateway.State.{SessionInfo, GatewayState, Env, Answer, reply, nothing, set_cookie}

-- `now - self.created_at` of `u64`s.
abbrev pub is_expired : SessionInfo → ℕ → Bool
is_expired session now = ltb (24 * 60 * 60) ((now + 2 ^ 64 - session.created_at) % 2 ^ 64)

abbrev pub push_front : ℕ → List Bytes → List Bytes
push_front c [] = (c ∷ []) ∷ []
push_front c (part ∷ parts) = (c ∷ part) ∷ parts

-- `cookie_header.split(';')`
unfoldable pub split : Bytes → List Bytes
split [] = [] ∷ []
split (c ∷ cs) = let rest = split cs in if c == 59 then [] ∷ rest else push_front c rest

-- The text of a header has no white space but spaces and tabs.
abbrev pub is_space : ℕ → Bool
is_space c = (c == 32) || (c == 9)

abbrev pub trim_start : Bytes → Bytes
trim_start [] = []
trim_start (c ∷ cs) = if is_space c then trim_start cs else c ∷ cs

abbrev pub trim : Bytes → Bytes
trim s = reverse (trim_start (reverse (trim_start s)))

abbrev pub strip_prefix : Bytes → Bytes → Option Bytes
strip_prefix [] s = some s
strip_prefix (p ∷ ps) [] = none
strip_prefix (p ∷ ps) (c ∷ cs) = if p == c then strip_prefix ps cs else none

-- `moar_session=`
abbrev pub cookie_name : Bytes
cookie_name = 109 ∷ 111 ∷ 97 ∷ 114 ∷ 95 ∷ 115 ∷ 101 ∷ 115 ∷ 115 ∷ 105 ∷ 111 ∷ 110 ∷ 61 ∷ []

-- The first part that is the session's cookie.
unfoldable pub token_in : List Bytes → Option Bytes
token_in [] = none
token_in (part ∷ parts) = elim (strip_prefix cookie_name (trim part)) [
  | some value ↦ some value
  | none ↦ token_in parts
]

-- From the `Cookie` header, if there is one and it is text.
unfoldable pub extract_session_token : Option Bytes → Option Bytes
unfolding split token_in
extract_session_token none = none
extract_session_token (some cookie_header) = token_in (split cookie_header)

-- Who asks, or what is left of the sessions: one that has expired is removed.
unfoldable pub require_auth : Env → Option Bytes → HashMap SessionInfo → HashMap SessionInfo ⊎ Bytes
unfolding extract_session_token
require_auth env headers sessions = elim (extract_session_token headers) [
  | none ↦ inl sessions
  | some token ↦ elim (get sessions token) [
    | none ↦ inl sessions
    | some session ↦
        if is_expired session env.now then inl (remove sessions token) else inr session.pubkey
  ]
]

-- A handler that starts with `require_auth`.
unfoldable pub guarded : Env → Option Bytes → GatewayState → (GatewayState → Answer) → Answer
unfolding require_auth
guarded env headers s handler = elim (require_auth env headers s.sessions) [
  | inl sessions ↦ (record s { sessions = sessions }, reply 401 nothing)
  | inr pubkey ↦ handler s
]

-- `HttpOnly; Path=/; SameSite=Strict` stands in every cookie: it is left out.
unfoldable pub login_handler : Env → Event → GatewayState → Answer
unfolding verify_auth_event
login_handler env event s = elim (verify_auth_event env.verify env.now event) [
  | some why ↦ (s, reply 401 nothing)
  | none ↦
      if bytes_eq (env.to_hex event.pubkey) s.config.admin_pubkey
      then (
        record s {
          sessions =
              insert s.sessions env.token
                (record { pubkey = env.to_hex event.pubkey; created_at = env.now });
        },
        reply 200 (set_cookie (cookie_name ++ env.token)),
      )
      else (s, reply 403 nothing)
]

unfoldable pub logout_handler : Env → Option Bytes → GatewayState → Answer
unfolding extract_session_token
logout_handler env headers s = elim (extract_session_token headers) [
  | none ↦ (s, reply 200 (set_cookie cookie_name))
  | some token ↦
      (record s { sessions = remove s.sessions token }, reply 200 (set_cookie cookie_name))
]
