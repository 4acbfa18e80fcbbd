-- ===== src/Gateway/Login.antt =====
-- How long a login lasts.
use moar.Common.{
  ℕ, ◌+◌, ◌*◌, ◌^◌, ◌≤◌, ◌<◌, ◌≡◌, refl, sym, ap, ◌∙◌, inl, inr, true, false, ◌||◌, Option, none,
  some, [], ◌∷◌, ◌++◌, Bytes, bytes_eq, bytes_eq_refl, bytes_eq→eq, if◌then◌else◌, Bool-cases,
  Option-cases, leb, ◌==◌, ==_refl, true≢false, arith, reverse, reverse-cons, reverse-reverse, All,
  All-append,
}
use moar.Auth.{verify_auth_event}
use moar.HashMap.{get, insert, remove}
use moar.HashMap.Laws.{get-insert_at}
use moar.Nostr.{Event}
use moar.Gateway.State.{
  GatewayState, SessionInfo, Env, Response, reply, panicked, nothing, set_cookie, Content,
}
use moar.Gateway.Session.{
  require_auth, login_handler, extract_session_token, cookie_name, is_expired, split, push_front,
  trim, trim_start, strip_prefix, token_in, is_space,
}

-- A byte of a cookie's value that is neither a semicolon nor white space.
abbrev pub IsPlain : ℕ → Type 0
IsPlain c = ((c == 59) || is_space c) ≡ false

split_plain : (s : Bytes) → All IsPlain s → split s ≡ s ∷ []
unfolding split
split_plain [] h = refl
split_plain (c ∷ cs) h =
    let here : (c == 59) ≡ false = ground (arith, h.0) in
    rw here (ap (push_front c) (split_plain cs h.1))

trim_start_plain : (s : Bytes) → All IsPlain s → trim_start s ≡ s
trim_start_plain [] h = refl
trim_start_plain (c ∷ cs) h = let here : is_space c ≡ false = ground (arith, h.0) in rw here refl

All-reverse : (s : Bytes) → All IsPlain s → All IsPlain (reverse s)
All-reverse [] h = h
All-reverse (c ∷ cs) h =
    rw (reverse-cons c cs) (All-append IsPlain (reverse cs) (c ∷ []) (All-reverse cs h.1) (h.0, tt))

pub strip_own_prefix : (p t : Bytes) → strip_prefix p (p ++ t) ≡ some t
strip_own_prefix [] t = refl
strip_own_prefix (c ∷ cs) t = rw (==_refl c) (strip_own_prefix cs t)

trim_plain : (s : Bytes) → All IsPlain s → trim s ≡ s
trim_plain s h =
    ap (λ t. reverse (trim_start (reverse t))) (trim_start_plain s h)
    ∙ (ap reverse (trim_start_plain (reverse s) (All-reverse s h)) ∙ reverse-reverse s)

token_of :
    (part t : Bytes) → strip_prefix cookie_name (trim part) ≡ some t → token_in (part ∷ []) ≡ some t
unfolding token_in
token_of part t h =
    ap
      (λ (o : Option Bytes). elim o as (λ x. Option Bytes) [
        | some value ↦ some value
        | none ↦ none
      ])
      h

-- The cookie that a login sets shows its token.
cookie_shows :
    (token : Bytes)
    → All IsPlain token
    → extract_session_token (some (cookie_name ++ token)) ≡ some token
unfolding extract_session_token
cookie_shows token plain =
    let whole : All IsPlain (cookie_name ++ token) =
      All-append IsPlain cookie_name token
        (
          refl,
          (
            refl,
            (
              refl,
              (refl, (refl, (refl, (refl, (refl, (refl, (refl, (refl, (refl, (refl, tt)))))))))),
            ),
          ),
        )
        plain in
    ap token_in (split_plain (cookie_name ++ token) whole)
    ∙ token_of (cookie_name ++ token) token (
        ap (strip_prefix cookie_name) (trim_plain (cookie_name ++ token) whole)
        ∙ strip_own_prefix cookie_name token)

abbrev reply_code : Response → ℕ
reply_code (reply code content) = code
reply_code panicked = 0

denied_ne_ok :
    {code : ℕ} {c : Content} → (code == 200) ≡ false → reply code nothing ≡ reply 200 c → ⊥
denied_ne_ok {code} other h = true≢false (sym (ap (λ r. reply_code r == 200) h) ∙ other)

-- What a successful login leaves.
login-session :
    (env : Env) (event : Event) (s : GatewayState)
    → (login_handler env event s).1 ≡ reply 200 (set_cookie (cookie_name ++ env.token))
    → (login_handler env event s).0.sessions
      ≡ insert s.sessions env.token
          (record { pubkey = s.config.admin_pubkey; created_at = env.now })
unfolding login_handler
login-session env event s ok = elim (Option-cases (verify_auth_event env.verify env.now event)) [
  | inr (why, invalid) ↦ absurd (denied_ne_ok refl (rw (invalid, login_handler) at ok))
  | inl valid ↦ elim (Bool-cases (bytes_eq (env.to_hex event.pubkey) s.config.admin_pubkey)) [
    | inl admin ↦
        rw (valid, login_handler)
          (rw (admin, login_handler)
            (ap (λ pk. insert s.sessions env.token (record { pubkey = pk; created_at = env.now }))
              (bytes_eq→eq _ _ admin)))
    | inr other ↦
        absurd (denied_ne_ok refl (rw (other, login_handler) at (rw (valid, login_handler) at ok)))
  ]
]

-- The cookie of a successful login is accepted as the admin's for 24 hours from the login, and then
-- refused, with its session removed. The token has no semicolon and no white space.
pub login-lasts :
    (env later : Env) (event : Event) (s : GatewayState)
    → All IsPlain env.token
    → (login_handler env event s).1 ≡ reply 200 (set_cookie (cookie_name ++ env.token))
    → env.now ≤ later.now
    → later.now < 2 ^ 64
    → let sessions = (login_handler env event s).0.sessions in
      require_auth later (some (cookie_name ++ env.token)) sessions ≡ (
        if leb later.now (env.now + 24 * 60 * 60)
        then inr s.config.admin_pubkey
        else inl (remove sessions env.token))
unfolding require_auth
login-lasts env later event s plain ok after fits =
    let shown = cookie_shows env.token plain in
    let opened = login-session env event s ok in
    let session : SessionInfo = record { pubkey = s.config.admin_pubkey; created_at = env.now } in
    let known : get (login_handler env event s).0.sessions env.token ≡ some session =
      ap (λ m. get m env.token) opened
      ∙ get-insert_at s.sessions env.token env.token session (bytes_eq_refl env.token) in
    elim (Bool-cases (leb later.now (env.now + 24 * 60 * 60))) [
      | inl soon ↦
          let live : is_expired session later.now ≡ false = ground arith in
          rw (shown, require_auth) (rw (known, require_auth) (rw live (rw soon refl)))
      | inr late ↦
          let old : is_expired session later.now ≡ true = ground arith in
          rw (shown, require_auth) (rw (known, require_auth) (rw old (rw late refl)))
    ]
