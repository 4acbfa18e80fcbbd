-- ===== src/Policy/Gates.antt =====
-- Which events and readers the policy lets through.
use moar.Common.{
  true≢false, ℕ, ◌+◌, ◌-◌, ◌%◌, ◌^◌, ◌≤◌, ◌≡◌, ◌≢◌, ◌↔◌, ◌⊎◌, inl, inr, refl, sym, ap, ◌∙◌, Bool,
  true, false, not, ◌||◌, Option, none, some, List, [], ◌∷◌, Bytes, length, any, ltb, ◌==◌,
  if◌then◌else◌, bytes_eq, elem, arith, Bool-cases, Option-cases, some_inj, none_ne_some,
}
use moar.Nostr.{Event, Filter}
use moar.Policy.{
  PolicyResult, allow, deny, auth_required, ◌>>◌, if_some, deny_if, DenyReason, leading_zero_bits,
  Membership, PolicyEngine, parse_pubkeys, tags_approved, can_write, reader_gate, can_read,
  not_on_read_list,
}

-- An absent rule asks for nothing.
abbrev pub Given {ℓ} : {A : Type ℓ} → Option A → (A → Type 0) → Type 0
Given none P = Unit
Given (some a) P = P a

infixr 3 ◌&&&◌
abbrev pub ◌&&&◌ : Type 0 → Type 0 → Type 0
P &&& Q = P × Q

-- Two checks in a row pass when both do.
both :
    {P Q : Type 0} {a b : PolicyResult}
    → (a ≡ allow) ↔ P
    → (b ≡ allow) ↔ Q
    → ((a >> b) ≡ allow) ↔ (P &&& Q)
both {a = allow} (to, from) (to', from') = ((λ h. (to refl, to' h)), λ k. from' k.1)
both {a = deny d} (to, from) g = ((λ h. absurd cc), λ k. from k.0)
both {a = auth_required} (to, from) g = ((λ h. absurd cc), λ k. from k.0)

given {ℓ} :
    {A : Type ℓ} {P : A → Type 0} {check : A → PolicyResult} (o : Option A)
    → ((a : A) → (check a ≡ allow) ↔ P a)
    → (if_some o check ≡ allow) ↔ Given o P
given none g = ((λ h. tt), λ h. refl)
given (some a) g = g a

unless : (b : Bool) (r : DenyReason) → (deny_if b r ≡ allow) ↔ (b ≡ false)
unless true r = ((λ h. absurd cc), λ h. absurd cc)
unless false r = ((λ h. refl), λ h. refl)

only : (b : Bool) (r : DenyReason) → (deny_if (not b) r ≡ allow) ↔ (b ≡ true)
only true r = ((λ h. refl), λ h. refl)
only false r = ((λ h. absurd cc), λ h. absurd cc)

at_most : (m n : ℕ) (r : DenyReason) → (deny_if (ltb m n) r ≡ allow) ↔ (n ≤ m)
at_most m n r = elim (Bool-cases (ltb m n)) [
  | inl over ↦ rw over ((λ h. absurd cc), λ h. absurd (ground (arith, over, h)))
  | inr fine ↦ rw fine ((λ h. ground (arith, fine)), λ h. refl)
]

-- The session has authenticated, if it must.
abbrev Authenticated : Bool → Option Bytes → Type 0
Authenticated required authed = (required ≡ false) ⊎ ((pk : Bytes) × (authed ≡ some pk))

auth_gate :
    (required : Bool) (authed : Option Bytes)
    → ((if required then (elim authed [ none ↦ auth_required | some pk ↦ allow ]) else allow)
        ≡ allow)
      ↔ Authenticated required authed
auth_gate false authed = ((λ h. inl refl), λ h. refl)
auth_gate true none =
    ((λ h. absurd cc), λ h. elim h [ inl f ↦ absurd cc | inr (pk, e) ↦ absurd (none_ne_some e) ])
auth_gate true (some pk) = ((λ h. inr (pk, refl)), λ h. refl)

needs_key :
    (required : Bool) → ((if required then auth_required else allow) ≡ allow) ↔ (required ≡ false)
needs_key true = ((λ h. absurd cc), λ h. absurd cc)
needs_key false = ((λ h. refl), λ h. refl)

-- A reader who has to be a member.
abbrev Member : Option Bytes → Membership → Type 0
Member authed contains = (pk : Bytes) × (authed ≡ some pk) × (contains pk ≡ true)

Member-gate :
    (authed : Option Bytes) (contains : Membership) (r : DenyReason)
    → (reader_gate authed contains r ≡ allow) ↔ Member authed contains
Member-gate none contains r = ((λ h. absurd cc), λ (pk, e, _). absurd (none_ne_some e))
Member-gate (some pk) contains r = elim (Bool-cases (contains pk)) [
  | inl yes' ↦ rw yes' ((λ h. (pk, refl, yes')), λ h. refl)
  | inr out ↦ rw out (
    (λ h. absurd cc),
    λ (k, e, m). absurd (true≢false (sym m ∙ ap contains (sym (some_inj e)) ∙ out)),
  )
]

list_gate :
    (authed : Option Bytes) (allowed : List Bytes)
    → (elim authed [
      | none ↦ deny not_on_read_list
      | some pk ↦ if elem pk allowed then allow else deny not_on_read_list
    ]
        ≡ allow)
      ↔ Member authed (λ pk. elem pk allowed)
list_gate none allowed = ((λ h. absurd cc), λ (pk, e, _). absurd (none_ne_some e))
list_gate (some pk) allowed = elim (Bool-cases (elem pk allowed)) [
  | inl yes' ↦ rw yes' ((λ h. (pk, refl, yes')), λ h. refl)
  | inr out ↦ rw out (
    (λ h. absurd cc),
    λ (k, e, m). absurd (true≢false (sym m ∙ ap (λ x. elem x allowed) (sym (some_inj e)) ∙ out)),
  )
]

module _ (parse_key : Bytes → Option Bytes) where
  -- A configured list holds the keys that its entries parse to, and nothing for the others.
  pub parse_pubkeys_lem :
      (keys : List Bytes) (pk : Bytes)
      → elem pk (parse_pubkeys parse_key keys)
        ≡ any (λ key. elim (parse_key key) [ none ↦ false | some k ↦ bytes_eq pk k ]) keys
  unfolding parse_pubkeys
  parse_pubkeys_lem [] pk = refl
  parse_pubkeys_lem (key ∷ keys) pk = elim (Option-cases (parse_key key)) [
    | inl bad ↦ rw (bad, parse_pubkeys) (parse_pubkeys_lem keys pk)
    | inr (k, good) ↦
        rw (good, parse_pubkeys) (ap (λ b. bytes_eq pk k || b) (parse_pubkeys_lem keys pk))
  ]

  -- What the rules ask of an event: authentication; the author on the allow-list, in the Web of
  -- Trust, among the payers and not blocked; a tag of an approved key; an allowed kind that is not
  -- blocked; the content's length, the proof of work, the number of tags and the timestamp.
  abbrev pub MayWrite : PolicyEngine → Event → Option Bytes → ℕ → Type 0
  MayWrite p e authed now =
      Authenticated p.config.write.require_auth authed
      &&& Given p.write_allowed (λ allowed. elem e.pubkey allowed ≡ true)
      &&& Given p.write_wot (λ contains. contains e.pubkey ≡ true)
      &&& Given p.write_paywall (λ contains. contains e.pubkey ≡ true)
      &&& Given p.write_blocked (λ blocked. elem e.pubkey blocked ≡ false)
      &&& Given p.write_tagged (λ tagged. any (tags_approved parse_key tagged) e.tags ≡ true)
      &&& Given p.allowed_kinds (λ kinds. any (λ k. e.kind == k) kinds ≡ true)
      &&& Given p.blocked_kinds (λ kinds. any (λ k. e.kind == k) kinds ≡ false)
      &&& Given p.config.events.max_content_length (λ most. length e.content ≤ most)
      &&& Given p.config.events.min_pow (λ least. least ≤ leading_zero_bits e.id)
      &&& Given p.nip11.max_event_tags (λ most. length e.tags ≤ most)
      &&& Given p.nip11.created_at_lower_limit (λ age. now - age ≤ e.created_at)
      &&& Given p.nip11.created_at_upper_limit (λ ahead. e.created_at ≤ (now + ahead) % 2 ^ 64)

  -- A write is allowed if and only if every configured rule is met.
  pub can_write_lem :
      (p : PolicyEngine) (e : Event) (authed : Option Bytes) (now : ℕ)
      → (can_write parse_key p e authed now ≡ allow) ↔ MayWrite p e authed now
  unfolding can_write
  can_write_lem p e authed now = both (auth_gate p.config.write.require_auth authed) (
      both (given p.write_allowed (λ xs. only _ _)) (
        both (given p.write_wot (λ f. only _ _)) (
          both (given p.write_paywall (λ f. only _ _)) (
            both (given p.write_blocked (λ xs. unless _ _)) (
              both (given p.write_tagged (λ xs. only _ _)) (
                both (given p.allowed_kinds (λ ks. only _ _)) (
                  both (given p.blocked_kinds (λ ks. unless _ _)) (
                    both (given p.config.events.max_content_length (λ n. at_most _ _ _)) (
                      both (given p.config.events.min_pow (λ n. at_most _ _ _)) (
                        both (given p.nip11.max_event_tags (λ n. at_most _ _ _)) (
                          both (given p.nip11.created_at_lower_limit (λ n. at_most _ _ _))
                            (given p.nip11.created_at_upper_limit (λ n. at_most _ _ _)))))))))))))

abbrev pub MayRead : PolicyEngine → Option Bytes → Type 0
MayRead p authed =
    Authenticated p.config.read.require_auth authed
    &&& Given p.read_allowed (λ allowed. Member authed (λ pk. elem pk allowed))
    &&& Given p.read_wot (Member authed)
    &&& Given p.read_paywall (Member authed)

-- A read is allowed if and only if every configured rule is met by the authenticated key; the
-- filter plays no part.
pub can_read_lem :
    (p : PolicyEngine) (f : Filter) (authed : Option Bytes)
    → (can_read p f authed ≡ allow) ↔ MayRead p authed
unfolding can_read
can_read_lem p f authed = both (auth_gate p.config.read.require_auth authed) (
    both (given p.read_allowed (list_gate authed)) (
      both (given p.read_wot (λ contains. Member-gate authed contains _))
        (given p.read_paywall (λ contains. Member-gate authed contains _))))

-- A rule that refuses everyone who is anonymous has to be absent.
absent {ℓ} :
    {A : Type ℓ} {check : A → PolicyResult} (o : Option A)
    → ((a : A) → check a ≢ allow)
    → (if_some o check ≡ allow) ↔ (o ≡ none)
absent none h = ((λ e. refl), λ e. refl)
absent (some a) h = ((λ e. absurd (h a e)), λ e. absurd (none_ne_some (sym e)))

-- A session that has not authenticated may read only from a relay that has none of the four read
-- rules.
pub can_read-anonymous :
    (p : PolicyEngine) (f : Filter)
    → (can_read p f none ≡ allow) ↔ (
        (p.config.read.require_auth ≡ false)
        &&& (p.read_allowed ≡ none)
        &&& (p.read_wot ≡ none)
        &&& (p.read_paywall ≡ none))
unfolding can_read
can_read-anonymous p f = both (needs_key p.config.read.require_auth) (
    both (absent p.read_allowed (λ a e. cc))
      (both (absent p.read_wot (λ a e. cc)) (absent p.read_paywall (λ a e. cc))))
