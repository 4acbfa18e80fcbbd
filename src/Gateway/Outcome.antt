-- ===== src/Gateway/Outcome.antt =====
-- What a change of a relay or a media server may come to.
use moar.Common.{◌≡◌, refl, ◌⊎◌, inl, inr, Bool, true, false, Option, Bytes, Bool-cases, ltb}
use moar.Config.{RelayConfig, BlossomConfig}
use moar.HashMap.{HashMap, get, insert, remove}
use moar.Gateway.State.{GatewayState, Env, parsed, Answer, Response, reply, panicked}
use moar.Gateway.Session.{guarded}
use moar.Gateway.Branches.{guarded-branch}
use moar.Gateway.Relays.{saved_relays}
use moar.Gateway.Blossoms.{saved_blossoms}
use moar.Gateway.{
  Request, post_relay, put_relay, drop_relay, post_blossom, put_blossom, drop_blossom,
}

-- The services that a request asks for.
abbrev pub asked_relays : Request → HashMap RelayConfig → HashMap RelayConfig
asked_relays (post_relay (parsed (id, config))) rs = insert rs id config
asked_relays (put_relay id (parsed config)) rs = insert rs id config
asked_relays (drop_relay id) rs = remove rs id
asked_relays _ rs = rs

abbrev pub asked_blossoms : Request → HashMap BlossomConfig → HashMap BlossomConfig
asked_blossoms (post_blossom (parsed (id, config))) bs = insert bs id config
asked_blossoms (put_blossom id (parsed config)) bs = insert bs id config
asked_blossoms (drop_blossom id) bs = remove bs id
asked_blossoms _ bs = bs

abbrev pub is_success : Response → Bool
is_success (reply code content) = ltb code 300
is_success panicked = false

-- The configuration has these services, and so has its file.
pub record IsDone (s : GatewayState) (rs : HashMap RelayConfig) (bs : HashMap BlossomConfig)
    (t : GatewayState) : Type 0 where
  pub written : t.config ≡ record s.config { relays = rs; blossoms = bs }
  pub in_file : t.config_file ≡ t.config
  pub restart_due : t.pending_restart ≡ true

-- Every look-up gives what it gave, the files are as they were, and no restart is due that was not.
pub record IsUndone (s t : GatewayState) : Type 0 where
  pub same_relays : (id : Bytes) → get t.config.relays id ≡ get s.config.relays id
  pub same_blossoms : (id : Bytes) → get t.config.blossoms id ≡ get s.config.blossoms id
  pub same_file : t.config_file ≡ s.config_file
  pub same_pages : t.pages ≡ s.pages
  pub same_restart : t.pending_restart ≡ s.pending_restart

pub record IsAtomic (s : GatewayState) (rs : HashMap RelayConfig) (bs : HashMap BlossomConfig)
    (a : Answer) : Type 0 where
  pub outcome :
      ((is_success a.1 ≡ true) × IsDone s rs bs a.0) ⊎ ((is_success a.1 ≡ false) × IsUndone s a.0)

module _ (s : GatewayState) (rs : HashMap RelayConfig) (bs : HashMap BlossomConfig) where
  -- An answer before anything is changed.
  pub turned_away : (r : Response) → is_success r ≡ false → IsAtomic s rs bs (s, r)
  turned_away r failed = record {
    outcome = inr (
      failed,
      record {
        same_relays = λ id. refl;
        same_blossoms = λ id. refl;
        same_file = refl;
        same_pages = refl;
        same_restart = refl;
      },
    );
  }

  pub guarded-IsAtomic :
      (env : Env) (headers : Option Bytes) (k : GatewayState → Answer)
      → IsAtomic s rs bs (k s)
      → IsAtomic s rs bs (guarded env headers s k)
  guarded-IsAtomic env headers k h =
      guarded-branch (IsAtomic s rs bs) env headers s k
        (λ left. record {
          outcome = inr (
            refl,
            record {
              same_relays = λ id. refl;
              same_blossoms = λ id. refl;
              same_file = refl;
              same_pages = refl;
              same_restart = refl;
            },
          );
        })
        h

pub saved_relays-IsAtomic :
    (env : Env) (s : GatewayState) (rollback rs : HashMap RelayConfig) (changed : GatewayState)
    (answer : Response)
    → ((j : Bytes) → get rollback j ≡ get s.config.relays j)
    → changed.config ≡ record s.config { relays = rs }
    → is_success answer ≡ true
    → IsAtomic s rs s.config.blossoms (saved_relays env s rollback (changed, answer))
saved_relays-IsAtomic env s rollback rs changed answer undone written success =
    elim (Bool-cases env.can_write) [
      | inl writes ↦ rw writes (record {
        outcome = inl (success, record { written = written; in_file = refl; restart_due = refl });
      })
      | inr fails ↦ rw fails (record {
        outcome = inr (
          refl,
          record {
            same_relays = undone;
            same_blossoms = λ id. refl;
            same_file = refl;
            same_pages = refl;
            same_restart = refl;
          },
        );
      })
    ]

pub saved_blossoms-IsAtomic :
    (env : Env) (s : GatewayState) (rollback bs : HashMap BlossomConfig) (changed : GatewayState)
    (answer : Response)
    → ((j : Bytes) → get rollback j ≡ get s.config.blossoms j)
    → changed.config ≡ record s.config { blossoms = bs }
    → is_success answer ≡ true
    → IsAtomic s s.config.relays bs (saved_blossoms env s rollback (changed, answer))
saved_blossoms-IsAtomic env s rollback bs changed answer undone written success =
    elim (Bool-cases env.can_write) [
      | inl writes ↦ rw writes (record {
        outcome = inl (success, record { written = written; in_file = refl; restart_due = refl });
      })
      | inr fails ↦ rw fails (record {
        outcome = inr (
          refl,
          record {
            same_relays = λ id. refl;
            same_blossoms = undone;
            same_file = refl;
            same_pages = refl;
            same_restart = refl;
          },
        );
      })
    ]

-- The requests that create, update or delete a relay or a media server.
abbrev pub is_change : Request → Bool
is_change (post_relay body) = true
is_change (put_relay id body) = true
is_change (drop_relay id) = true
is_change (post_blossom body) = true
is_change (put_blossom id body) = true
is_change (drop_blossom id) = true
is_change _ = false

abbrev pub Atomic : GatewayState → Request → Answer → Type 0
Atomic s request a =
    IsAtomic s (asked_relays request s.config.relays) (asked_blossoms request s.config.blossoms) a
