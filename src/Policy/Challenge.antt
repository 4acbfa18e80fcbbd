-- ===== src/Policy/Challenge.antt =====
-- src/policy.rs: when a write is answered with a demand for authentication.
use moar.Common.{
  ℕ, ◌≡◌, ◌≢◌, ◌↔◌, refl, sym, Bool, true, false, Option, none, some, Bytes, if◌then◌else◌,
  none_ne_some,
}
use moar.Nostr.{Event}
use moar.Policy.{
  PolicyResult, allow, deny, auth_required, ◌>>◌, if_some, deny_if, DenyReason, PolicyEngine,
  can_write,
}

-- Never the answer that asks for authentication.
abbrev Quiet : PolicyResult → Type 0
Quiet r = r ≢ auth_required

Quiet-then : (a b : PolicyResult) → Quiet a → Quiet b → Quiet (a >> b)
Quiet-then allow b h k = k
Quiet-then (deny d) b h k = h
Quiet-then auth_required b h k = h

Quiet-if_some {ℓ} :
    {A : Type ℓ} {check : A → PolicyResult} (o : Option A)
    → ((a : A) → Quiet (check a))
    → Quiet (if_some o check)
Quiet-if_some none h = λ e. cc
Quiet-if_some (some a) h = h a

Quiet-deny_if : (b : Bool) (r : DenyReason) → Quiet (deny_if b r)
Quiet-deny_if true r = λ e. cc
Quiet-deny_if false r = λ e. cc

rule {ℓ} :
    {A : Type ℓ} {check : A → PolicyResult} {rest : PolicyResult} (o : Option A)
    → ((a : A) → Quiet (check a))
    → Quiet rest
    → Quiet (if_some o check >> rest)
rule o h q = Quiet-then (if_some o _) _ (Quiet-if_some o h) q

-- The first check of a write, and all of a read's that can ask for authentication.
auth_asked :
    (required : Bool) (authed : Option Bytes) (rest : PolicyResult)
    → Quiet rest
    → ((if required then (elim authed [ none ↦ auth_required | some pk ↦ allow ]) else allow)
          >> rest)
        ≡ auth_required
      ↔ ((required ≡ true) × (authed ≡ none))
auth_asked false authed rest q = ((λ h. absurd (q h)), λ h. absurd cc)
auth_asked true none rest q = ((λ h. (refl, refl)), λ h. refl)
auth_asked true (some pk) rest q = ((λ h. absurd (q h)), λ h. absurd (none_ne_some (sym h.1)))

module _ (parse_key : Bytes → Option Bytes) where
  -- A write is answered with a demand for authentication exactly when the relay requires it and the
  -- session has none, whatever other rules the event breaks.
  pub can_write-auth_required :
      (p : PolicyEngine) (e : Event) (authed : Option Bytes) (now : ℕ)
      → (can_write parse_key p e authed now ≡ auth_required)
        ↔ ((p.config.write.require_auth ≡ true) × (authed ≡ none))
  unfolding can_write
  can_write-auth_required p e authed now = auth_asked p.config.write.require_auth authed _ (
      rule p.write_allowed (λ a. Quiet-deny_if _ _)
        (rule p.write_wot (λ a. Quiet-deny_if _ _)
          (rule p.write_paywall (λ a. Quiet-deny_if _ _)
            (rule p.write_blocked (λ a. Quiet-deny_if _ _)
              (rule p.write_tagged (λ a. Quiet-deny_if _ _)
                (rule p.allowed_kinds (λ a. Quiet-deny_if _ _)
                  (rule p.blocked_kinds (λ a. Quiet-deny_if _ _)
                    (rule p.config.events.max_content_length (λ a. Quiet-deny_if _ _)
                      (rule p.config.events.min_pow (λ a. Quiet-deny_if _ _)
                        (rule p.nip11.max_event_tags (λ a. Quiet-deny_if _ _)
                          (rule p.nip11.created_at_lower_limit (λ a. Quiet-deny_if _ _)
                            (Quiet-if_some p.nip11.created_at_upper_limit
                              (λ a. Quiet-deny_if _ _)))))))))))))
