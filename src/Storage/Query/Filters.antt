-- ===== src/Storage/Query/Filters.antt =====
-- Filters: the lists that they hold, and what a filter without ids asks for.
use moar.Common.{
  In, ℕ, ◌≡◌, subst, sym, ◌<◌, ◌^◌, true, ◌&&◌, none, some, Bytes, List, [], ◌∷◌, arith, ◌==◌,
  ==_iff, length, any, All, Bool-cases, inl, inr, or_left, or_right,
}
use moar.Error.{Result}
use moar.Nostr.{Event, Filter}
use moar.Storage.Query.{
  since_of, until_of, check_tags, allows, allows_kind, not_before, not_after, event_matches_filter,
}
use moar.Storage.Query.Collect.{Collects}
use moar.Storage.Query.Scans.{in_time}

-- What the Rust types of a filter say of its fields.
pub record IsFilter (f : Filter) : Type 0 where
  pub times : (since_of f < 2 ^ 64) × (until_of f < 2 ^ 64)
  pub authors_lengths : (keys : List Bytes) → f.authors ≡ some keys → All (λ a. length a ≡ 32) keys
  pub kinds_u16 : (ks : List ℕ) → f.kinds ≡ some ks → All (λ k. k < 2 ^ 16) ks

pub any_of_In : (k : ℕ) (ks : List ℕ) → In k ks → any (λ j. k == j) ks ≡ true
any_of_In k [] m = absurd m
any_of_In k (j ∷ ks) (inl here) = or_left _ _ ((==_iff k j).1 here)
any_of_In k (j ∷ ks) (inr there) = or_right (k == j) _ (any_of_In k ks there)

pub In-of_any : (k : ℕ) (ks : List ℕ) → any (λ j. k == j) ks ≡ true → In k ks
In-of_any k [] h = absurd (ground arith)
In-of_any k (j ∷ ks) h = elim (Bool-cases (k == j)) [
  | inl here ↦ inl ((==_iff k j).0 here)
  | inr there ↦ inr (In-of_any k ks (rw there at h))
]

pub All-In {κ} : {A : Type 0} (P : A → Type κ) (a : A) (xs : List A) → All P xs → In a xs → P a
All-In P a [] h m = absurd m
All-In P a (x ∷ xs) h (inl here) = subst P (sym here) h.0
All-In P a (x ∷ xs) h (inr there) = All-In P a xs h.1 there

pub Collects-iff :
    (limit : ℕ) (run : List Event → Result (List Event)) (G H : Event → Type 0)
    → ((e : Event) → G e → H e)
    → ((e : Event) → H e → G e)
    → Collects limit run G
    → Collects limit run H
Collects-iff limit run G H to from c cs =
    let (new, r, sound, complete) = c cs in
    (new, r, (λ e m. to e (sound e m)), λ few e h. complete few e (from e h))

-- The two tests of time are one.
pub in_time_lem :
    (f : Filter) (e : Event)
    → e.created_at < 2 ^ 64
    → (not_before f.since e.created_at && not_after f.until e.created_at) ≡ in_time f e
in_time_lem f e h = ground arith

-- The filter without ids asks for a kind, an author, a time and tags.
pub matches_split :
    (f : Filter) (e : Event)
    → f.ids ≡ none
    → e.created_at < 2 ^ 64
    → event_matches_filter e f ≡ (
        allows_kind f.kinds e.kind
        && (allows f.authors e.pubkey && (in_time f e && check_tags e.tags f.generic_tags)))
unfolding event_matches_filter
matches_split f e i h = let t = in_time_lem f e h in rw i (ground (arith, t))
