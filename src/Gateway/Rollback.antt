-- ===== src/Gateway/Rollback.antt =====
-- What a change of the services leaves when the configuration cannot be saved.
use moar.Common.{
  ◌≡◌, refl, sym, ap, ◌∙◌, inl, inr, true, Option, none, some, Bytes, bytes_eq, bytes_eq→eq,
  Bool-cases,
}
use moar.Config.{RelayConfig, BlossomConfig}
use moar.HashMap.{HashMap, get, insert, remove}
use moar.HashMap.Laws.{get-insert_at, get-insert_off, get-remove_at, get-remove_off}
use moar.Gateway.State.{GatewayState, Env, Response}
use moar.Gateway.Relays.{saved_relays}
use moar.Gateway.Blossoms.{saved_blossoms}
use moar.Gateway.Sound.{IsSound, IsRoutable, Keeps, stay, save-IsSound}
use moar.Gateway.Validate.{same-IsRoutable}

module _ {V : Type 0} (m : HashMap V) (id : Bytes) where
  -- The look-up of an equal key.
  same_key : (o : Option V) → get m id ≡ o → (j : Bytes) → bytes_eq id j ≡ true → o ≡ get m j
  same_key o found j same = sym found ∙ ap (get m) (bytes_eq→eq id j same)

  pub undo_insert :
      (c : V) → get m id ≡ none → (j : Bytes) → get (remove (insert m id c) id) j ≡ get m j
  undo_insert c absent j = elim (Bool-cases (bytes_eq id j)) [
    | inl same ↦ get-remove_at (insert m id c) id j same ∙ same_key none absent j same
    | inr other ↦ get-remove_off (insert m id c) id j other ∙ get-insert_off m id j c other
  ]

  pub undo_update :
      (c old : V)
      → get m id ≡ some old
      → (j : Bytes) → get (insert (insert m id c) id old) j ≡ get m j
  undo_update c old present j = elim (Bool-cases (bytes_eq id j)) [
    | inl same ↦ get-insert_at (insert m id c) id j old same ∙ same_key (some old) present j same
    | inr other ↦ get-insert_off (insert m id c) id j old other ∙ get-insert_off m id j c other
  ]

  pub undo_remove :
      (old : V) → get m id ≡ some old → (j : Bytes) → get (insert (remove m id) id old) j ≡ get m j
  undo_remove old present j = elim (Bool-cases (bytes_eq id j)) [
    | inl same ↦ get-insert_at (remove m id) id j old same ∙ same_key (some old) present j same
    | inr other ↦ get-insert_off (remove m id) id j old other ∙ get-remove_off m id j other
  ]

pub saved_relays-Keeps :
    (env : Env) (s : GatewayState) (rollback : HashMap RelayConfig) (changed : GatewayState)
    (answer : Response)
    → ((j : Bytes) → get rollback j ≡ get s.config.relays j)
    → changed.sessions ≡ s.sessions
    → changed.config.admin_pubkey ≡ s.config.admin_pubkey
    → IsRoutable changed.config.relays changed.config.blossoms
    → IsSound s
    → Keeps (saved_relays env s rollback (changed, answer))
saved_relays-Keeps env s rollback changed answer undone es ea routable h =
    elim (Bool-cases env.can_write) [
      | inl writes ↦ rw writes (stay (save-IsSound s changed es ea h routable))
      | inr fails ↦ rw fails (
          stay (record {
            in_memory = same-IsRoutable _ rollback _ _ undone (λ i. refl) h.in_memory;
            in_file = h.in_file;
            admins = h.admins;
          }))
    ]

pub saved_blossoms-Keeps :
    (env : Env) (s : GatewayState) (rollback : HashMap BlossomConfig) (changed : GatewayState)
    (answer : Response)
    → ((j : Bytes) → get rollback j ≡ get s.config.blossoms j)
    → changed.sessions ≡ s.sessions
    → changed.config.admin_pubkey ≡ s.config.admin_pubkey
    → IsRoutable changed.config.relays changed.config.blossoms
    → IsSound s
    → Keeps (saved_blossoms env s rollback (changed, answer))
saved_blossoms-Keeps env s rollback changed answer undone es ea routable h =
    elim (Bool-cases env.can_write) [
      | inl writes ↦ rw writes (stay (save-IsSound s changed es ea h routable))
      | inr fails ↦ rw fails (
          stay (record {
            in_memory = same-IsRoutable _ _ _ rollback (λ i. refl) undone h.in_memory;
            in_file = h.in_file;
            admins = h.admins;
          }))
    ]
