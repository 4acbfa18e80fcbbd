-- ===== src/Wot/Follows.antt =====
-- The graph that the relays' answers describe, and what a run may rely on of the relays.
use moar.Common.{
  ℕ, zero, suc, ◌≡◌, refl, ◌⊎◌, inl, inr, ◌++◌, true, Option, some, List, Bytes, In, ◌≤◌, ◌==◌,
  ==_iff, subst, Bool-cases, arith,
}
use moar.Wot.Relay.{Serde, Network, Exchange, wot_dash}
use moar.Wot.Reading.{Names}

-- Whether one of these authors follows this key.
pub record FollowedBy (follows : Bytes → List Bytes) (authors : List Bytes) (x : Bytes)
    : Type 0 where
  pub author : Bytes
  pub asked : In author authors
  pub followed : In x (follows author)

-- The keys that are at most so many hops away.
abbrev pub Within : (Bytes → List Bytes) → Bytes → ℕ → Bytes → Type 0
Within follows seed zero x = x ≡ seed
Within follows seed (suc hops) x =
    Within follows seed hops x ⊎ ((a : Bytes) × Within follows seed hops a × In x (follows a))

-- The depths that a build can have: at least one hop, and four at most.
abbrev pub depth_of : ℕ → ℕ
depth_of zero = 1
depth_of (suc zero) = 1
depth_of (suc (suc zero)) = 2
depth_of (suc (suc (suc zero))) = 3
depth_of (suc (suc (suc (suc more)))) = 4

pub Within-seed :
    (follows : Bytes → List Bytes) (seed : Bytes) (hops : ℕ) → Within follows seed hops seed
Within-seed follows seed zero = refl
Within-seed follows seed (suc hops) = inl (Within-seed follows seed hops)

pub Within-le :
    (follows : Bytes → List Bytes) (seed : Bytes) (n hops : ℕ) (x : Bytes)
    → hops ≤ n
    → Within follows seed hops x
    → Within follows seed n x
Within-le follows seed zero hops x fits w =
    let same : hops ≡ 0 = omega arith in subst (λ k. Within follows seed k x) same w
Within-le follows seed (suc n) hops x fits w = elim (Bool-cases (hops == suc n)) [
  | inl same ↦ subst (λ k. Within follows seed k x) ((==_iff hops (suc n)).0 same) w
  | inr other ↦ inl (Within-le follows seed n hops x (ground arith) w)
]

module _ (S : Serde) (parse : Bytes → Option Bytes) (display : ℕ → Bytes) where
  -- A relay sends contact lists of the authors that it was asked for, and as they are.
  pub record IsHonest (net : Network) (follows : Bytes → List Bytes) : Type 0 where
    pub truthful :
        (url : Bytes) (ws : ℕ → List Bytes → Option Exchange)
        → net url ≡ some ws
        → (i : ℕ) (batch : List Bytes) (ex : Exchange) → ws i batch ≡ some ex
        → (x : Bytes) → Names S parse display ex.frames (wot_dash ++ display i) x
        → FollowedBy follows batch x

  -- A relay answers, and names all that the authors follow.
  pub record IsComplete (net : Network) (follows : Bytes → List Bytes) (url : Bytes) : Type 0 where
    pub ws : ℕ → List Bytes → Option Exchange
    pub connects : net url ≡ some ws
    pub exchange : ℕ → List Bytes → Exchange
    pub answers : (i : ℕ) (batch : List Bytes) → ws i batch ≡ some (exchange i batch)
    pub ends : (i : ℕ) (batch : List Bytes) → (exchange i batch).closed ≡ true
    pub names_all :
        (i : ℕ) (batch : List Bytes) (x : Bytes)
        → FollowedBy follows batch x
        → Names S parse display (exchange i batch).frames (wot_dash ++ display i) x
