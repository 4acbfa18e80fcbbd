-- ===== src/Gateway/Sound.antt =====
-- What holds of the admin interface's state between requests, and the changes that keep it.
use moar.Common.{◌≡◌, refl, inl, inr, true, Option, some, Bytes, Bool-cases, Option-cases}
use moar.Config.{RelayConfig, BlossomConfig}
use moar.HashMap.{HashMap, get, remove}
use moar.Gateway.State.{GatewayState, SessionInfo, Env, Answer, Response}
use moar.Gateway.Session.{guarded, require_auth, extract_session_token, is_expired}
use moar.Gateway.Wots.{saved}
use moar.Gateway.Apart.{IsApart, get-remove_some}

abbrev pub relay_name : RelayConfig → Bytes
relay_name r = r.subdomain

abbrev pub blossom_name : BlossomConfig → Bytes
blossom_name b = b.subdomain

-- Every subdomain belongs to one service.
pub record IsRoutable (rs : HashMap RelayConfig) (bs : HashMap BlossomConfig) : Type 0 where
  pub relays_apart : IsApart relay_name rs
  pub blossoms_apart : IsApart blossom_name bs
  pub disjoint :
      (i j : Bytes) (r : RelayConfig) (b : BlossomConfig)
      → get rs i ≡ some r
      → get bs j ≡ some b
      → r.subdomain ≡ b.subdomain
      → ⊥

-- Every session is the admin's.
pub record IsAdmins (sessions : HashMap SessionInfo) (admin : Bytes) : Type 0 where
  pub is_admin : (t : Bytes) (i : SessionInfo) → get sessions t ≡ some i → i.pubkey ≡ admin

pub record IsSound (s : GatewayState) : Type 0 where
  pub in_memory : IsRoutable s.config.relays s.config.blossoms
  pub in_file : IsRoutable s.config_file.relays s.config_file.blossoms
  pub admins : IsAdmins s.sessions s.config.admin_pubkey

-- A change of the other parts.
pub same-IsSound :
    (s t : GatewayState)
    → t.config.relays ≡ s.config.relays
    → t.config.blossoms ≡ s.config.blossoms
    → t.config.admin_pubkey ≡ s.config.admin_pubkey
    → t.config_file ≡ s.config_file
    → t.sessions ≡ s.sessions
    → IsSound s
    → IsSound t
same-IsSound s t er eb ea ef es h = record {
  in_memory = rw (er, eb) h.in_memory;
  in_file = rw ef h.in_file;
  admins = rw (es, ea) h.admins;
}

pub save-IsSound :
    (s : GatewayState) (changed : GatewayState)
    → changed.sessions ≡ s.sessions
    → changed.config.admin_pubkey ≡ s.config.admin_pubkey
    → IsSound s
    → IsRoutable changed.config.relays changed.config.blossoms
    → IsSound (record changed { config_file = changed.config; pending_restart = true })
save-IsSound s changed es ea h routable = record {
  in_memory = routable;
  in_file = routable;
  admins = rw (es, ea) h.admins;
}

-- An answer that leaves a sound state.
pub record Keeps (a : Answer) : Type 0 where
  pub kept : IsSound a.0

pub stay : {s : GatewayState} {r : Response} → IsSound s → Keeps (s, r)
stay h = record { kept = h }

pub saved-Keeps :
    (env : Env) (s : GatewayState) (answer : Response) → IsSound s → Keeps (saved env s answer)
saved-Keeps env s answer h = elim (Bool-cases env.can_write) [
  | inl writes ↦ rw writes (stay (save-IsSound s s refl refl h h.in_memory))
  | inr fails ↦ rw fails (stay h)
]

-- A session that has expired is removed; the others stay.
pub remove-IsSound :
    (s : GatewayState) (token : Bytes)
    → IsSound s
    → IsSound (record s { sessions = remove s.sessions token })
remove-IsSound s token h = record {
  in_memory = h.in_memory;
  in_file = h.in_file;
  admins = record {
    is_admin = λ t i at. h.admins.is_admin t i (get-remove_some s.sessions token t i at);
  };
}

pub guarded-Keeps :
    (env : Env) (headers : Option Bytes) (s : GatewayState) (k : GatewayState → Answer)
    → IsSound s
    → Keeps (k s)
    → Keeps (guarded env headers s k)
unfolding guarded require_auth
guarded-Keeps env headers s k h done = elim (Option-cases (extract_session_token headers)) [
  | inl nobody ↦ rw (nobody, guarded) (stay (same-IsSound s _ refl refl refl refl refl h))
  | inr (token, shown) ↦ elim (Option-cases (get s.sessions token)) [
    | inl unknown ↦
        rw (shown, guarded)
          (rw (unknown, guarded) (stay (same-IsSound s _ refl refl refl refl refl h)))
    | inr (session, known) ↦ elim (Bool-cases (is_expired session env.now)) [
      | inl old ↦
          rw (shown, guarded)
            (rw (known, guarded) (rw (old, guarded) (stay (remove-IsSound s token h))))
      | inr live ↦ rw (shown, guarded) (rw (known, guarded) (rw (live, guarded) done))
    ]
  ]
]
