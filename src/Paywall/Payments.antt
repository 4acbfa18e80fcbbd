-- ===== src/Paywall/Payments.antt =====
-- src/paywall.rs, `create_invoice` and `check_payment`: what a paid invoice buys.
use moar.Common.{
  ℕ, ◌+◌, ◌<◌, ap, arith, ◌*◌, ◌%◌, ◌^◌, ◌≡◌, refl, ◌∙◌, false, ◌&&◌, ◌||◌, inr, Option, none, some,
  Bytes, ltb, bytes_eq, bytes_eq_refl,
}
use moar.HashMap.{HashMap, get, insert, remove}
use moar.Paywall.{
  PaywallSet, InvoiceStatus, contains, add, save_to_disk, PaywallManager, PaywallEntry,
  PendingPayment, pending, paid, expired, InvoiceResponse, access_end, invoiced, create_invoice,
  check_payment,
}
use moar.HashMap.Laws.{get-insert, get-remove, get-insert_at, get-insert_off}
use moar.Paywall.Set.{contains-add}

-- So many days, of 86400 seconds each, after this time, as a `u64`.
abbrev pub days_from : ℕ → ℕ → ℕ
days_from now days = (now + days * 86400) % 2 ^ 64

access_end_lem : (p : PendingPayment) (now : ℕ) → access_end p now ≡ days_from now p.period_days
access_end_lem p now = omega arith

-- A paid invoice, when its payment is checked: the status is reported, the key that asked for the
-- invoice has access for the paid days of 86400 seconds from the check on, whose end is a `u64`, no
-- one else's access changes, the set is written to the paywall's file, other paywalls are as before,
-- and the same invoice counts as expired from then on.
pub check_payment-paid :
    (m : PaywallManager) (id payment_hash : Bytes) (entry : PaywallEntry) (p : PendingPayment)
    (now later : ℕ)
    → get m.entries id ≡ some entry
    → get entry.pending_payments payment_hash ≡ some p
    → p.status ≡ paid
    → (m' : PaywallManager) × (entry' : PaywallEntry) × (check_payment m id payment_hash now
        ≡ inr (m', paid))
      × (get m'.entries id ≡ some entry')
      × ((x : Bytes) (t : ℕ)
          → contains entry'.set x t ≡ (
              contains entry.set x t
              || (bytes_eq p.pubkey x && ltb t (days_from now p.period_days))))
      × (get m'.disk id ≡ some (save_to_disk entry'.set))
      × ((other : Bytes) → bytes_eq id other ≡ false → get m'.entries other ≡ get m.entries other)
      × (check_payment m' id payment_hash later ≡ inr (m', expired))
unfolding check_payment
check_payment-paid m id payment_hash entry p now later here due done =
    let set = add entry.set p.pubkey (access_end p now) in
    let entry' : PaywallEntry = record entry {
      set = set;
      pending_payments = remove entry.pending_payments payment_hash;
    } in
    let m' : PaywallManager = record {
      entries = insert m.entries id entry';
      disk = insert m.disk id (save_to_disk set);
    } in
    let there : get m'.entries id ≡ some entry' =
      get-insert m.entries id id entry' ∙ rw (bytes_eq_refl id) refl in
    let gone : get entry'.pending_payments payment_hash ≡ none =
      get-remove entry.pending_payments payment_hash payment_hash
      ∙ rw (bytes_eq_refl payment_hash) refl in
    (
      m',
      entry',
      rw (here, check_payment) (rw due (rw done refl)),
      there,
      (λ x t.
          contains-add entry.set p.pubkey x (access_end p now) t
          ∙ ap (λ e. contains entry.set x t || (bytes_eq p.pubkey x && ltb t e))
              (access_end_lem p now)),
      get-insert m.disk id id (save_to_disk set) ∙ rw (bytes_eq_refl id) refl,
      (λ other apart. get-insert m.entries id other entry' ∙ rw apart refl),
      rw (there, check_payment) (rw gone refl),
    )

-- What the listener of an invoice sends becomes the status of its payment.
abbrev reported : HashMap PendingPayment → Bytes → InvoiceStatus → HashMap PendingPayment
reported payments payment_hash status = elim (get payments payment_hash) [
  | none ↦ payments
  | some p ↦ insert payments payment_hash (record p { status = status })
]

abbrev pub report : PaywallManager → Bytes → Bytes → InvoiceStatus → PaywallManager
report m id payment_hash status = elim (get m.entries id) [
  | none ↦ m
  | some entry ↦ record m {
    entries =
        insert m.entries id
          (record entry { pending_payments = reported entry.pending_payments payment_hash status });
  }
]

-- The manager and the paywall's entry after an invoice was made for this key.
record IsInvoiced (m m' : PaywallManager) (id pubkey payment_hash : Bytes)
    (entry entry' : PaywallEntry) (now : ℕ) : Type 0 where
  there : get m'.entries id ≡ some entry'
  due : get entry'.pending_payments payment_hash ≡ some (invoiced entry pubkey now)
  same_set : entry'.set ≡ entry.set
  same_disk : m'.disk ≡ m.disk
  others : (other : Bytes) → bytes_eq id other ≡ false → get m'.entries other ≡ get m.entries other

create_invoice-IsInvoiced :
    (m : PaywallManager) (id pubkey payment_hash invoice : Bytes) (entry : PaywallEntry)
    (wallet : ℕ → Option InvoiceResponse) (now : ℕ)
    → get m.entries id ≡ some entry
    → entry.config.price_sats * 1000 < 2 ^ 64
    → wallet (entry.config.price_sats * 1000) ≡ some (payment_hash, invoice)
    → (m' : PaywallManager) × (entry' : PaywallEntry) × (create_invoice m id pubkey wallet now
        ≡ inr (m', (payment_hash, invoice)))
      × IsInvoiced m m' id pubkey payment_hash entry entry' now
unfolding create_invoice
create_invoice-IsInvoiced m id pubkey payment_hash invoice entry wallet now here fits made =
    let payment = invoiced entry pubkey now in
    let entry' : PaywallEntry = record entry {
      pending_payments = insert entry.pending_payments payment_hash payment;
    } in
    let m' : PaywallManager = record m { entries = insert m.entries id entry' } in
    let whole : entry.config.price_sats * 1000 % 2 ^ 64 ≡ entry.config.price_sats * 1000 =
      omega arith in
    (
      m',
      entry',
      rw (here, create_invoice) (rw (whole, made) refl),
      record {
        there = get-insert_at m.entries id id entry' (bytes_eq_refl id);
        due =
            get-insert_at entry.pending_payments payment_hash payment_hash payment
              (bytes_eq_refl payment_hash);
        same_set = refl;
        same_disk = refl;
        others = λ other apart. get-insert_off m.entries id other entry' apart;
      },
    )

-- The report of the listener reaches the payment that waits.
record IsReported (m : PaywallManager) (id payment_hash : Bytes) (set : PaywallSet)
    (p : PendingPayment) : Type 0 where
  entry : PaywallEntry
  there : get m.entries id ≡ some entry
  same_set : entry.set ≡ set
  due : get entry.pending_payments payment_hash ≡ some p

report-IsReported :
    (m : PaywallManager) (id payment_hash : Bytes) (entry : PaywallEntry) (p : PendingPayment)
    (status : InvoiceStatus)
    → get m.entries id ≡ some entry
    → get entry.pending_payments payment_hash ≡ some p
    → IsReported
        (report m id payment_hash status)
        id
        payment_hash
        entry.set
        (record p { status = status })
report-IsReported m id payment_hash entry p status here due =
    let p' : PendingPayment = record p { status = status } in
    let entry' : PaywallEntry = record entry {
      pending_payments = insert entry.pending_payments payment_hash p';
    } in
    record {
      entry = entry';
      there =
          rw (here, report)
            (rw (due, reported) (get-insert_at m.entries id id entry' (bytes_eq_refl id)));
      same_set = refl;
      due =
          get-insert_at entry.pending_payments payment_hash payment_hash p'
            (bytes_eq_refl payment_hash);
    }

-- An invoice of a known paywall is asked for at its price in millisatoshis, which fits a `u64`. When
-- the wallet makes it, the set of payers, the files and the other paywalls are as before, and a
-- check before any report of the listener says pending and changes nothing. When the listener
-- reports that it is paid, the next check says so and gives the key that asked for the invoice
-- access for the paywall's days of 86400 seconds from that check on, whose end is a `u64`, and
-- changes no one else's access.
pub create_invoice_lem :
    (m : PaywallManager) (id pubkey payment_hash invoice : Bytes) (entry : PaywallEntry)
    (wallet : ℕ → Option InvoiceResponse) (now later at : ℕ)
    → get m.entries id ≡ some entry
    → entry.config.price_sats * 1000 < 2 ^ 64
    → wallet (entry.config.price_sats * 1000) ≡ some (payment_hash, invoice)
    → (m' : PaywallManager) × (entry' : PaywallEntry) × (create_invoice m id pubkey wallet now
        ≡ inr (m', (payment_hash, invoice)))
      × (get m'.entries id ≡ some entry')
      × (entry'.set ≡ entry.set)
      × (m'.disk ≡ m.disk)
      × ((other : Bytes) → bytes_eq id other ≡ false → get m'.entries other ≡ get m.entries other)
      × (check_payment m' id payment_hash later ≡ inr (m', pending))
      × ((m'' : PaywallManager) × (entry'' : PaywallEntry) × (check_payment
              (report m' id payment_hash paid)
              id
              payment_hash
              at
            ≡ inr (m'', paid))
          × (get m''.entries id ≡ some entry'')
          × ((x : Bytes) (t : ℕ)
              → contains entry''.set x t ≡ (
                  contains entry.set x t
                  || (bytes_eq pubkey x && ltb t (days_from at entry.config.period_days)))))
unfolding check_payment
create_invoice_lem m id pubkey payment_hash invoice entry wallet now later at here fits made =
    let (m', entry', done, i) =
      create_invoice-IsInvoiced m id pubkey payment_hash invoice entry wallet now here fits made in
    let r =
      report-IsReported m' id payment_hash entry' (invoiced entry pubkey now) paid i.there i.due in
    let (m'', entry'', checked, there, access, _, _, _) =
      check_payment-paid (report m' id payment_hash paid) id payment_hash r.entry
        (record (invoiced entry pubkey now) { status = paid }) at later r.there r.due refl in
    (
      m',
      entry',
      done,
      i.there,
      i.same_set,
      i.same_disk,
      i.others,
      rw (i.there, check_payment) (rw (i.due) refl),
      (
        m'',
        entry'',
        checked,
        there,
        λ x t.
            access x t
            ∙ ap
                (λ s.
                  contains s x t
                  || (bytes_eq pubkey x && ltb t (days_from at entry.config.period_days)))
                (r.same_set ∙ i.same_set),
      ),
    )
