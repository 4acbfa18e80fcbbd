-- ===== src/Paywall/Tests.antt =====
-- A paywall with one payer and one paid invoice.
use moar.Common.{
  ℕ, ◌+◌, ◌≤◌, ◌<◌, ◌↔◌, ◌≡◌, refl, arith, true, false, ◌&&◌, ◌||◌, inr, Option, none, some, [],
  ◌∷◌, Bytes, length, replicate, ltb, ◌==◌, if◌then◌else◌, bytes_eq,
}
use moar.HashMap.{get}
use moar.Paywall.{
  PaywallSet, contains, remove_expired, save_to_disk, load_from_disk, PaywallManager, PaywallEntry,
  PendingPayment, pending, paid, expired, InvoiceResponse, create_invoice, check_payment,
}
use moar.HashMap.Laws.{Distinct}
use moar.Paywall.Set.{remove_expired_lem}
use moar.Paywall.Disk.{load_from_disk-save_to_disk}
use moar.Paywall.Payments.{days_from, report, check_payment-paid, create_invoice_lem}

abbrev alice : Bytes
alice = replicate 32 0xa1

abbrev bob : Bytes
bob = replicate 32 0xb0

abbrev payers : PaywallSet
payers = (alice, 1700000000) ∷ (bob, 1600000000) ∷ []

payers-Distinct : Distinct payers
unfolding bytes_eq
payers-Distinct = (refl, (refl, tt))

abbrev from_slice : Bytes → Option Bytes
from_slice key = if length key == 32 then some key else none

abbrev entry : PaywallEntry
entry = record {
  config = record { nwc_string = []; price_sats = 1000; period_days = 30 };
  set = payers;
  pending_payments =
      (
        (b'h' ∷ []),
        record {
          pubkey = bob;
          amount_sats = 1000;
          period_days = 30;
          created_at = 1650000000;
          status = paid;
        },
      )
      ∷ [];
  running = true;
}

abbrev manager : PaywallManager
manager = record { entries = ((b'w' ∷ []), entry) ∷ []; disk = [] }

abbrev bobs : PendingPayment
bobs = record {
  pubkey = bob;
  amount_sats = 1000;
  period_days = 30;
  created_at = 1650000000;
  status = paid;
}

abbrev wallet : ℕ → Option InvoiceResponse
wallet msats = if msats == 1000000 then some (b'x' ∷ [], b'i' ∷ []) else none

remove_expired_lem_example :
    Distinct (remove_expired payers 1650000000).0
    × ((x : Bytes) (e : ℕ)
        → (get (remove_expired payers 1650000000).0 x ≡ some e)
          ↔ ((get payers x ≡ some e) × (1650000000 < e)))
    × (length (remove_expired payers 1650000000).0 + (remove_expired payers 1650000000).1
        ≡ length payers)
    × ((x : Bytes) (t : ℕ)
        → 1650000000 ≤ t
        → contains (remove_expired payers 1650000000).0 x t ≡ contains payers x t)
remove_expired_lem_example = remove_expired_lem payers 1650000000 payers-Distinct

load_from_disk-save_to_disk_example :
    (s : PaywallSet) × (load_from_disk from_slice 1650000000 (save_to_disk payers) ≡ some s)
    × ((x : Bytes) (t : ℕ) → 1650000000 ≤ t → contains s x t ≡ contains payers x t)
load_from_disk-save_to_disk_example =
    load_from_disk-save_to_disk from_slice 1650000000 payers payers-Distinct
      ((refl, refl, omega arith), ((refl, refl, omega arith), tt))

check_payment-paid_example :
    (m : PaywallManager) × (e : PaywallEntry) × (check_payment manager
        (b'w' ∷ [])
        (b'h' ∷ [])
        1650000060
      ≡ inr (m, paid))
    × (get m.entries (b'w' ∷ []) ≡ some e)
    × ((x : Bytes) (t : ℕ)
        → contains e.set x t
          ≡ (contains payers x t || (bytes_eq bob x && ltb t (days_from 1650000060 30))))
    × (get m.disk (b'w' ∷ []) ≡ some (save_to_disk e.set))
    × ((other : Bytes)
        → bytes_eq (b'w' ∷ []) other ≡ false
        → get m.entries other ≡ get manager.entries other)
    × (check_payment m (b'w' ∷ []) (b'h' ∷ []) 1650000120 ≡ inr (m, expired))
unfolding bytes_eq
check_payment-paid_example =
    check_payment-paid manager (b'w' ∷ []) (b'h' ∷ []) entry bobs 1650000060 1650000120 refl refl
      refl

-- Alice's access ends 30 days after the check of her payment.
create_invoice_lem_example :
    (m : PaywallManager) × (e : PaywallEntry) × (create_invoice manager
        (b'w' ∷ [])
        alice
        wallet
        1650000000
      ≡ inr (m, (b'x' ∷ [], b'i' ∷ [])))
    × (get m.entries (b'w' ∷ []) ≡ some e)
    × (e.set ≡ payers)
    × (m.disk ≡ manager.disk)
    × ((other : Bytes)
        → bytes_eq (b'w' ∷ []) other ≡ false
        → get m.entries other ≡ get manager.entries other)
    × (check_payment m (b'w' ∷ []) (b'x' ∷ []) 1650000120 ≡ inr (m, pending))
    × ((m' : PaywallManager) × (e' : PaywallEntry) × (check_payment
            (report m (b'w' ∷ []) (b'x' ∷ []) paid)
            (b'w' ∷ [])
            (b'x' ∷ [])
            1650000180
          ≡ inr (m', paid))
        × (get m'.entries (b'w' ∷ []) ≡ some e')
        × ((x : Bytes) (t : ℕ)
            → contains e'.set x t
              ≡ (contains payers x t || (bytes_eq alice x && ltb t 1652592180))))
unfolding bytes_eq
create_invoice_lem_example =
    create_invoice_lem manager (b'w' ∷ []) alice (b'x' ∷ []) (b'i' ∷ []) entry wallet 1650000000
      1650000120 1650000180 refl (omega arith) refl
