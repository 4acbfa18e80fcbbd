-- ===== src/Paywall.antt =====
-- src/paywall.rs: the set of payers, the pending invoices and the file that keeps the set.
-- A clock reading is an argument, in
-- seconds. The wallet (src/nwc.rs) is what it answers; a file system that fails is not modelled.
pub mod Set
pub mod Disk
pub mod Payments
mod Tests
use moar.Common.{
  ℕ, zero, suc, ◌+◌, ◌-◌, ◌*◌, ◌/◌, ◌%◌, ◌^◌, Bool, true, false, not, ◌⊎◌, inl, inr, Option, none,
  some, List, [], ◌∷◌, ◌++◌, Bytes, length, take, drop, keep, ltb, leb, ◌==◌, if◌then◌else◌,
  bytes_eq, is_some,
}
use moar.Config.{PaywallConfig}
use moar.HashMap.{HashMap, get, insert, remove}

-- When each key's access ends.
abbrev pub PaywallSet : Type 0
PaywallSet = HashMap ℕ

-- Whether an entry, if there is one, has not ended.
abbrev pub live : Option ℕ → ℕ → Bool
live none now = false
live (some expires_at) now = ltb now expires_at

unfoldable pub contains : PaywallSet → Bytes → ℕ → Bool
contains set pk now = live (get set pk) now

-- `entry(pk).or_insert(0)`, raised to the new end if that is later.
abbrev pub raised : Option ℕ → ℕ → ℕ
raised none expires_at = if ltb 0 expires_at then expires_at else 0
raised (some entry) expires_at = if ltb entry expires_at then expires_at else entry

unfoldable pub add : PaywallSet → Bytes → ℕ → PaywallSet
add set pk expires_at = insert set pk (raised (get set pk) expires_at)

unfoldable pub remove_expired : PaywallSet → ℕ → PaywallSet × ℕ
remove_expired set now =
    let kept = keep (λ (_, expires_at). ltb now expires_at) set in (kept, length set - length kept)

-- `to_le_bytes` and `from_le_bytes` of an integer of `w` bytes.
unfoldable pub to_le_bytes : ℕ → ℕ → Bytes
to_le_bytes zero n = []
to_le_bytes (suc w) n = n % 256 ∷ to_le_bytes w (n / 256)

unfoldable pub from_le_bytes : Bytes → ℕ
from_le_bytes [] = 0
from_le_bytes (b ∷ bs) = b + 256 * from_le_bytes bs

-- The bytes that `save_to_disk` writes.
unfoldable pub save_to_disk : PaywallSet → Bytes
unfolding to_le_bytes
save_to_disk [] = []
save_to_disk ((pk, expires_at) ∷ entries) = pk ++ (to_le_bytes 8 expires_at ++ save_to_disk entries)

pub data InvoiceStatus : Type 0 where
  pending paid expired : InvoiceStatus

pub record PendingPayment : Type 0 where
  pub pubkey : Bytes
  pub amount_sats : ℕ
  pub period_days : ℕ
  pub created_at : ℕ
  -- The last value that the invoice's listener sent.
  pub status : InvoiceStatus

-- `running` stands for the handle of the background task.
pub record PaywallEntry : Type 0 where
  pub config : PaywallConfig
  pub set : PaywallSet
  pub pending_payments : HashMap PendingPayment
  pub running : Bool

-- `disk` holds the files of the data directory, by the id in their names.
pub record PaywallManager : Type 0 where
  pub entries : HashMap PaywallEntry
  pub disk : HashMap Bytes

pub data PaywallError : Type 0 where
  not_found invalid_nwc already_exists invoice_failed : PaywallError

abbrev new_entry : PaywallConfig → PaywallEntry
new_entry config = record { config = config; set = []; pending_payments = []; running = false }

-- The reply of `make_invoice`: the payment hash and the invoice.
abbrev pub InvoiceResponse : Type 0
InvoiceResponse = Bytes × Bytes

-- One chunk of the file: an entry that has ended, or whose key is not valid, is left out.
abbrev pub noted : ℕ → Option Bytes → ℕ → PaywallSet → PaywallSet
noted now none expires_at found = found
noted now (some pk) expires_at found =
    if ltb now expires_at then insert found pk expires_at else found

-- `from_slice` is `PublicKey::from_slice`.
module _ (from_slice : Bytes → Option Bytes) where
  -- The loop over the chunks of 40 bytes: a key that stands twice has
  -- the later entry.
  unfoldable pub load_chunks : ℕ → ℕ → Bytes → PaywallSet → PaywallSet
  unfolding from_le_bytes
  load_chunks now zero raw found = found
  load_chunks now (suc n) raw found =
      load_chunks now n (drop 40 raw)
        (noted now (from_slice (take 32 raw)) (from_le_bytes (take 8 (drop 32 raw))) found)

  -- `none` is the error of a file of a wrong size.
  unfoldable pub load_from_disk : ℕ → Bytes → Option PaywallSet
  unfolding load_chunks
  load_from_disk now raw =
      if length raw % 40 == 0 then some (load_chunks now (length raw / 40) raw []) else none

  abbrev loaded : HashMap Bytes → Bytes → ℕ → PaywallSet → PaywallSet
  loaded disk id now set = elim (get disk id) [
    | none ↦ set
    | some raw ↦ elim (load_from_disk now raw) [ none ↦ set | some s ↦ s ]
  ]

  -- What `start_background_task` does before the task sleeps.
  unfoldable pub start_background_task : PaywallManager → Bytes → ℕ → PaywallManager
  unfolding load_from_disk
  start_background_task m id now = elim (get m.entries id) [
    | none ↦ m
    | some entry ↦ record m {
      entries =
          insert m.entries id
            (record entry { set = loaded m.disk id now entry.set; running = true });
    }
  ]

-- `PaywallManager::new`, over the configured paywalls.
unfoldable pub new_entries :
    (Bytes → Bool) → HashMap PaywallConfig → PaywallError ⊎ HashMap PaywallEntry
new_entries valid_nwc [] = inr []
new_entries valid_nwc ((id, config) ∷ paywalls) =
    let rest = new_entries valid_nwc paywalls in
    if valid_nwc config.nwc_string
    then (elim rest [ inl e ↦ inl e | inr entries ↦ inr (insert entries id (new_entry config)) ])
    else inl invalid_nwc

-- `valid_nwc` says which connection strings parse.
module _ (from_slice : Bytes → Option Bytes) (valid_nwc : Bytes → Bool) where
  unfoldable pub add_paywall :
      PaywallManager → Bytes → PaywallConfig → ℕ → PaywallError ⊎ PaywallManager
  unfolding start_background_task
  add_paywall m id config now =
      if valid_nwc config.nwc_string
      then (if is_some (get m.entries id)
          then inl already_exists
          else inr (
              start_background_task from_slice
                (record m { entries = insert m.entries id (new_entry config) }) id now))
      else inl invalid_nwc

  unfoldable pub update_paywall :
      PaywallManager → Bytes → PaywallConfig → ℕ → PaywallError ⊎ PaywallManager
  unfolding start_background_task
  update_paywall m id config now =
      if valid_nwc config.nwc_string
      then (elim (get m.entries id) [
        | none ↦ inl not_found
        | some entry ↦ inr (
            start_background_task from_slice
              (record m {
                entries = insert m.entries id (record entry { config = config; running = false });
              })
              id now)
      ])
      else inl invalid_nwc

unfoldable pub remove_paywall :
    PaywallManager → Bytes → PaywallError ⊎ (PaywallManager × PaywallConfig)
remove_paywall m id = elim (get m.entries id) [
  | none ↦ inl not_found
  | some entry ↦
      inr (record { entries = remove m.entries id; disk = remove m.disk id }, entry.config)
]

-- One round of the background task. The age of a payment is a subtraction of `u64`s.
abbrev is_stale : ℕ → PendingPayment → Bool
is_stale now p = leb 3600 ((now + 2 ^ 64 - p.created_at) % 2 ^ 64)

unfoldable pub background_round : PaywallManager → Bytes → ℕ → PaywallManager
unfolding remove_expired save_to_disk
background_round m id now = elim (get m.entries id) [
  | none ↦ m
  | some entry ↦
      let (set, _) = remove_expired entry.set now in
      record {
        entries = insert m.entries id (record entry {
          set = set;
          pending_payments = keep (λ (_, p). not (is_stale now p)) entry.pending_payments;
        });
        disk = insert m.disk id (save_to_disk set);
      }
]

abbrev pub invoiced : PaywallEntry → Bytes → ℕ → PendingPayment
invoiced entry pubkey now = record {
  pubkey = pubkey;
  amount_sats = entry.config.price_sats;
  period_days = entry.config.period_days;
  created_at = now;
  status = pending;
}

-- `wallet` is the answer of `make_invoice` to an amount in millisatoshis.
unfoldable pub create_invoice :
    PaywallManager
    → Bytes
    → Bytes
    → (ℕ → Option InvoiceResponse)
    → ℕ
    → PaywallError ⊎ (PaywallManager × InvoiceResponse)
create_invoice m id pubkey wallet now = elim (get m.entries id) [
  | none ↦ inl not_found
  | some entry ↦ elim (wallet (entry.config.price_sats * 1000 % 2 ^ 64)) [
    | none ↦ inl invoice_failed
    | some (payment_hash, invoice) ↦ inr (
      record m {
        entries = insert m.entries id (record entry {
          pending_payments = insert entry.pending_payments payment_hash (invoiced entry pubkey now);
        });
      },
      (payment_hash, invoice),
    )
  ]
]

-- The end of the access that a payment buys.
abbrev pub access_end : PendingPayment → ℕ → ℕ
access_end p now = (now + p.period_days * 24 * 3600) % 2 ^ 64

abbrev grant : PaywallManager → Bytes → PaywallEntry → Bytes → PendingPayment → ℕ → PaywallManager
grant m id entry payment_hash p now =
    let set = add entry.set p.pubkey (access_end p now) in
    record {
      entries = insert m.entries id (record entry {
        set = set;
        pending_payments = remove entry.pending_payments payment_hash;
      });
      disk = insert m.disk id (save_to_disk set);
    }

unfoldable pub check_payment :
    PaywallManager → Bytes → Bytes → ℕ → PaywallError ⊎ (PaywallManager × InvoiceStatus)
unfolding add save_to_disk
check_payment m id payment_hash now = elim (get m.entries id) [
  | none ↦ inl not_found
  | some entry ↦ elim (get entry.pending_payments payment_hash) [
    | none ↦ inr (m, expired)
    | some p ↦ elim p.status [
      | pending ↦ inr (m, pending)
      | paid ↦ inr (grant m id entry payment_hash p now, paid)
      | expired ↦ inr (m, expired)
    ]
  ]
]
