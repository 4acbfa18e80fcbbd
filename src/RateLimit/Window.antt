-- ===== src/RateLimit/Window.antt =====
-- The sliding window of `check_rate`: how many calls it lets through in a minute.
use moar.Common.{
  ℕ, suc, ◌+◌, ◌*◌, ◌%◌, ◌^◌, ◌≤◌, ◌<◌, ◌≡◌, refl, sym, ap, ◌∙◌, Bool, true, false, List, [], ◌∷◌,
  ◌++◌, arith, ltb, leb, if◌then◌else◌, length, length-append, All, All-append, Bool-cases, inl,
  inr,
}
use moar.RateLimit.{second, prune, check_rate}

-- How many of the instants are no more than 60 seconds before `now`.
abbrev pub in_window : ℕ → List ℕ → ℕ
in_window now [] = 0
in_window now (t ∷ ts) =
    if ltb (t + 60 * second) now then in_window now ts else suc (in_window now ts)

-- Ascending, and none after `now`.
abbrev pub IsSorted : List ℕ → Type 0
IsSorted [] = Unit
IsSorted (t ∷ ts) = All (λ u. t ≤ u) ts × IsSorted ts

in_window-le : (now : ℕ) (ts : List ℕ) → in_window now ts ≤ length ts
in_window-le now [] = omega arith
in_window-le now (t ∷ ts) = ground (arith, in_window-le now ts)

in_window-append :
    (now : ℕ) (xs ys : List ℕ) → in_window now (xs ++ ys) ≡ in_window now xs + in_window now ys
in_window-append now [] ys = omega arith
in_window-append now (x ∷ xs) ys = ground (arith, in_window-append now xs ys)

All-le : {a b : ℕ} (xs : List ℕ) → b ≤ a → All (λ u. a ≤ u) xs → All (λ u. b ≤ u) xs
All-le [] h k = tt
All-le {a} {b} (x ∷ xs) h k = (omega arith, All-le {a = a} {b = b} xs h k.1)

in_window-All :
    (now front : ℕ) (ts : List ℕ)
    → now ≤ front + 60 * second
    → All (λ u. front ≤ u) ts
    → in_window now ts ≡ length ts
in_window-All now front [] h k = refl
in_window-All now front (t ∷ ts) h k = ground (arith, in_window-All now front ts h k.1)

IsSorted-prune : (now : ℕ) (ts : List ℕ) → IsSorted ts → IsSorted (prune now ts)
unfolding prune
IsSorted-prune now [] h = tt
IsSorted-prune now (t ∷ ts) h = ground (arith, IsSorted-prune now ts h.1)

-- What is pruned at `now` is out of the window from then on.
in_window-prune : (now n : ℕ) (ts : List ℕ) → now ≤ n → in_window n (prune now ts) ≡ in_window n ts
unfolding prune
in_window-prune now n [] h = refl
in_window-prune now n (t ∷ ts) h = ground (arith, in_window-prune now n ts h)

length-prune : (now : ℕ) (ts : List ℕ) → IsSorted ts → length (prune now ts) ≡ in_window now ts
unfolding prune
length-prune now [] h = refl
length-prune now (t ∷ ts) h = ground (arith, length-prune now ts h.1, in_window-All now t ts)

length-prune-le : (now : ℕ) (ts : List ℕ) → length (prune now ts) ≤ length ts
unfolding prune
length-prune-le now [] = omega arith
length-prune-le now (t ∷ ts) = ground (arith, length-prune-le now ts)

All-prune : (P : ℕ → Type 0) (now : ℕ) (ts : List ℕ) → All P ts → All P (prune now ts)
unfolding prune
All-prune P now [] h = tt
All-prune P now (t ∷ ts) h = elim (Bool-cases (ltb (t + 60 * second) now)) [
  | inl e ↦ rw e (All-prune P now ts h.1)
  | inr e ↦ rw e h
]

IsSorted-snoc : (ts : List ℕ) (b : ℕ) → IsSorted ts → All (λ u. u ≤ b) ts → IsSorted (ts ++ b ∷ [])
IsSorted-snoc [] b h k = (tt, tt)
IsSorted-snoc (t ∷ ts) b h k =
    (All-append (λ u. t ≤ u) ts (b ∷ []) h.0 (k.0, tt), IsSorted-snoc ts b h.1 k.1)

All-up : (a b : ℕ) (xs : List ℕ) → a ≤ b → All (λ u. u ≤ a) xs → All (λ u. u ≤ b) xs
All-up a b [] h k = tt
All-up a b (x ∷ xs) h k = (omega arith, All-up a b xs h k.1)

-- On an ascending deque of fewer than 2^32 instants, a call is allowed exactly when fewer than
-- `limit` recorded instants lie in the 60 seconds before it.
pub check_rate_lem :
    (now later limit : ℕ) (ts : List ℕ)
    → IsSorted ts
    → length ts < 2 ^ 32
    → (check_rate now later limit ts).1 ≡ ltb (in_window now ts) limit
unfolding check_rate
check_rate_lem now later limit ts s h =
    ground (arith, length-prune now ts s, length-prune-le now ts)

-- One minute's bookkeeping: the deque, and beside it every instant that was ever recorded.
pub record Log : Type 0 where
  pub timestamps : List ℕ
  pub accepted : List ℕ

abbrev pub record_call : Log → Bool → List ℕ → ℕ → Log
record_call l true ts later = record { timestamps = ts; accepted = l.accepted ++ later ∷ [] }
record_call l false ts later = record l { timestamps = ts }

abbrev pub step : ℕ → Log → ℕ × ℕ → Log
step limit l (now, later) =
    let r = check_rate now later limit l.timestamps in record_call l r.1 r.0 later

abbrev pub run : ℕ → Log → List (ℕ × ℕ) → Log
run limit l [] = l
run limit l (c ∷ cs) = run limit (step limit l c) cs

-- The two readings of each call, and those of successive calls, do not go back.
abbrev pub Ordered : ℕ → List (ℕ × ℕ) → Type 0
Ordered from [] = Unit
Ordered from ((now, later) ∷ cs) = (from ≤ now) × (now ≤ later) × Ordered later cs

record Inv (limit time : ℕ) (l : Log) : Type 0 where
  sorted : IsSorted l.timestamps
  past : All (λ u. u ≤ time) l.timestamps
  bounded : length l.timestamps ≤ limit
  same : (n : ℕ) → time ≤ n → in_window n l.accepted ≡ in_window n l.timestamps

module _ (limit time now later : ℕ) (l : Log) (h : time ≤ now) (k : now ≤ later)
    (v : Inv limit time l) where
  Inv-refused : Inv limit later (record l { timestamps = prune now l.timestamps })
  Inv-refused = record {
    sorted = IsSorted-prune now l.timestamps v.sorted;
    past =
        All-prune (λ u. u ≤ later) now l.timestamps
          (All-up time later l.timestamps (omega arith) v.past);
    bounded = omega (arith, length-prune-le now l.timestamps, v.bounded);
    same = λ n p. v.same n (omega arith) ∙ sym (in_window-prune now n l.timestamps (omega arith));
  }

  Inv-allowed :
      length (prune now l.timestamps) < limit
      → Inv limit later (record {
        timestamps = prune now l.timestamps ++ later ∷ [];
        accepted = l.accepted ++ later ∷ [];
      })
  Inv-allowed room = record {
    sorted =
        IsSorted-snoc (prune now l.timestamps) later (IsSorted-prune now l.timestamps v.sorted)
          Inv-refused.past;
    past =
        All-append (λ u. u ≤ later) (prune now l.timestamps) (later ∷ []) Inv-refused.past
          (omega arith);
    bounded = omega (arith, length-append (prune now l.timestamps) (later ∷ []));
    same = λ n p.
        in_window-append n l.accepted (later ∷ [])
        ∙ ap (λ c. c + in_window n (later ∷ [])) (Inv-refused.same n p)
        ∙ sym (in_window-append n (prune now l.timestamps) (later ∷ []));
  }

  step-Inv : limit < 2 ^ 32 → Inv limit later (step limit l (now, later))
  unfolding check_rate
  step-Inv small = elim (Bool-cases (leb limit (length (prune now l.timestamps) % 2 ^ 32))) [
    | inl e ↦ rw e Inv-refused
    | inr e ↦ rw e (Inv-allowed (ground (arith, length-prune-le now l.timestamps, v.bounded)))
  ]

-- The last reading of a run that starts at `from`.
abbrev pub last_time : ℕ → List (ℕ × ℕ) → ℕ
last_time from [] = from
last_time from ((now, later) ∷ cs) = last_time later cs

run-Inv :
    (limit time : ℕ) (l : Log) (cs : List (ℕ × ℕ))
    → limit < 2 ^ 32
    → Ordered time cs
    → Inv limit time l
    → Inv limit (last_time time cs) (run limit l cs)
run-Inv limit time l [] small o v = v
run-Inv limit time l ((now, later) ∷ cs) small o v =
    run-Inv limit later (step limit l (now, later)) cs small o.2
      (step-Inv limit time now later l o.0 o.1 v small)

abbrev pub empty_log : Log
empty_log = record { timestamps = []; accepted = [] }

empty-Inv : (limit : ℕ) → Inv limit 0 empty_log
empty-Inv limit = record { sorted = tt; past = tt; bounded = omega arith; same = λ n p. refl }

-- However many calls are made, if the clock does not go back and the limit is a `u32`, then at any
-- time after the run no more than `limit` of the allowed calls lie in the last 60 seconds.
pub run_window :
    (limit n : ℕ) (cs : List (ℕ × ℕ))
    → limit < 2 ^ 32
    → Ordered 0 cs
    → last_time 0 cs ≤ n
    → in_window n (run limit empty_log cs).accepted ≤ limit
run_window limit n cs small o h =
    let v = run-Inv limit 0 empty_log cs small o (empty-Inv limit) in
    omega (arith, v.same n h, in_window-le n (run limit empty_log cs).timestamps, v.bounded)
