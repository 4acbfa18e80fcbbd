-- ===== src/Paywall/Set.antt =====
-- src/paywall.rs, `PaywallSet`: who has access after an insert and after the expired entries went.
use moar.Common.{
  ℕ, ◌+◌, ◌≤◌, ◌<◌, ◌↔◌, ◌≡◌, refl, sym, ap, ◌∙◌, ◌&&◌, ◌||◌, Option, none, some, [], ◌∷◌, Bytes,
  length, keep, ltb, if◌then◌else◌, bytes_eq, bytes_eq→eq, Bool-cases, Option-cases, inl, inr,
  arith,
}
use moar.HashMap.{get}
use moar.HashMap.Laws.{Distinct, get-insert}
use moar.Paywall.{PaywallSet, live, raised, contains, add, remove_expired}

abbrev pub still : ℕ → Option ℕ → Option ℕ
still now none = none
still now (some e) = if ltb now e then some e else none

pub still-live : (o : Option ℕ) (now t : ℕ) → now ≤ t → live (still now o) t ≡ live o t
still-live none now t h = refl
still-live (some e) now t h = ground arith

get-keep :
    (s : PaywallSet) (now : ℕ) (k : Bytes)
    → Distinct s
    → get (keep (λ (_, e). ltb now e) s) k ≡ still now (get s k)
get-keep [] now k d = refl
get-keep ((j, e) ∷ s) now k d = elim (Bool-cases (bytes_eq j k)) [
  | inl same ↦
      let gone : get s k ≡ none = ap (get s) (sym (bytes_eq→eq j k same)) ∙ d.0 in
      ground (arith, get-keep s now k d.1)
  | inr other ↦ ground (arith, get-keep s now k d.1)
]

Distinct-keep : (s : PaywallSet) (now : ℕ) → Distinct s → Distinct (keep (λ (_, e). ltb now e) s)
Distinct-keep [] now d = tt
Distinct-keep ((j, e) ∷ s) now d = elim (Bool-cases (ltb now e)) [
  | inl in' ↦ rw in' (get-keep s now j d.1 ∙ rw (d.0) refl, Distinct-keep s now d.1)
  | inr out ↦ rw out (Distinct-keep s now d.1)
]

length-keep : (s : PaywallSet) (now : ℕ) → length (keep (λ (_, e). ltb now e) s) ≤ length s
length-keep [] now = omega arith
length-keep ((j, e) ∷ s) now = ground (arith, length-keep s now)

-- A payment gives its key access until the given end, or leaves a later end; no other key's access
-- changes.
pub contains-add :
    (s : PaywallSet) (pk x : Bytes) (expires_at t : ℕ)
    → contains (add s pk expires_at) x t ≡ (contains s x t || (bytes_eq pk x && ltb t expires_at))
unfolding contains add
contains-add s pk x expires_at t = elim (Bool-cases (bytes_eq pk x)) [
  | inl same ↦
      let moved : get s pk ≡ get s x = ap (get s) (bytes_eq→eq pk x same) in
      rw (same, moved)
        (elim (Option-cases (get s x)) [
          | inl new ↦ rw new (ground arith)
          | inr (e, known) ↦ rw known (ground arith)
        ])
  | inr other ↦
      ap (λ o. live o t) (get-insert s pk x (raised (get s pk) expires_at))
      ∙ rw other (ground arith)
]

still-some : (now e : ℕ) (o : Option ℕ) → (still now o ≡ some e) ↔ ((o ≡ some e) × (now < e))
still-some now e none = ground arith
still-some now e (some f) = ground arith

-- In a set with one entry for each key, exactly the entries that end later than now stay, as they
-- are, and one for each key; the number returned is that of the entries dropped. No one's access
-- changes, now or later.
pub remove_expired_lem :
    (s : PaywallSet) (now : ℕ)
    → Distinct s
    → Distinct (remove_expired s now).0
      × ((x : Bytes) (e : ℕ)
          → (get (remove_expired s now).0 x ≡ some e) ↔ ((get s x ≡ some e) × (now < e)))
      × (length (remove_expired s now).0 + (remove_expired s now).1 ≡ length s)
      × ((x : Bytes) (t : ℕ) → now ≤ t → contains (remove_expired s now).0 x t ≡ contains s x t)
unfolding contains remove_expired
remove_expired_lem s now d = (
  Distinct-keep s now d,
  λ x e. rw (get-keep s now x d) (still-some now e (get s x)),
  omega (arith, length-keep s now),
  λ x t later. ap (λ o. live o t) (get-keep s now x d) ∙ still-live (get s x) now t later,
)
