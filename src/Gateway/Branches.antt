-- ===== src/Gateway/Branches.antt =====
-- To prove something of a handler's answer, through its branches.
use moar.Common.{
  ◌≡◌, refl, ◌⊎◌, inl, inr, Bool, true, false, Option, none, some, Bytes, if◌then◌else◌,
}
use moar.HashMap.{HashMap}
use moar.Gateway.State.{GatewayState, SessionInfo, Env, Answer, reply, nothing}
use moar.Gateway.Session.{require_auth, guarded}

module _ (P : Answer → Type 0) where
  pub if-branch :
      (b : Bool) (x y : Answer) → (b ≡ true → P x) → (b ≡ false → P y) → P (if b then x else y)
  if-branch true x y h k = h refl
  if-branch false x y h k = k refl

  pub option-branch :
      {A : Type 0} (o : Option A) (x : Answer) (f : A → Answer)
      → P x
      → ((a : A) → o ≡ some a → P (f a))
      → P (elim o as (λ o2. Answer) [ none ↦ x | some a ↦ f a ])
  option-branch none x f h k = h
  option-branch (some a) x f h k = k a refl

  pub sum-branch :
      {A B : Type 0} (o : A ⊎ B) (x : A → Answer) (f : B → Answer)
      → ((a : A) → P (x a))
      → ((b : B) → P (f b))
      → P (elim o as (λ o2. Answer) [ inl a ↦ x a | inr b ↦ f b ])
  sum-branch (inl a) x f h k = h a
  sum-branch (inr b) x f h k = k b

  pub guarded-branch :
      (env : Env) (headers : Option Bytes) (s : GatewayState) (k : GatewayState → Answer)
      → ((left : HashMap SessionInfo) → P (record s { sessions = left }, reply 401 nothing))
      → P (k s)
      → P (guarded env headers s k)
  unfolding guarded
  guarded-branch env headers s k h j = split (require_auth env headers s.sessions)
    where
      split :
          (who : HashMap SessionInfo ⊎ Bytes)
          → P (elim who as (λ o2. Answer) [
            | inl sessions ↦ (record s { sessions = sessions }, reply 401 nothing)
            | inr pubkey ↦ k s
          ])
      split (inl left) = h left
      split (inr pubkey) = j
