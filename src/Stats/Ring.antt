-- ===== src/Stats/Ring.antt =====
-- The ring against a list that forgets nothing.
use moar.Common.{
  ltb→lt, subst, lt→ltb, ℕ, zero, suc, ◌+◌, ◌-◌, ◌%◌, ◌≤◌, ◌<◌, ◌≡◌, refl, ap, sym, ◌∙◌, List, [],
  ◌∷◌, ◌++◌, arith, length, set, take, drop, ltb, append_assoc, append-nil, length-append,
  length-set, Bool-cases, inl, inr, false, take_of_length-le, drop_of_length-le,
}
use moar.Stats.{TimeBucket, TimeSeriesRing, ring_capacity, new_ring, push, entries}

-- The last `n` entries of a list.
abbrev pub last {ℓ} : {A : Type ℓ} → ℕ → List A → List A
last n xs = drop (length xs - n) xs

abbrev pub push_all : TimeSeriesRing → List TimeBucket → TimeSeriesRing
push_all r [] = r
push_all r (b ∷ bs) = push_all (push r b) bs

module _ {ℓ} {A : Type ℓ} where
  drop-append : (n : ℕ) (xs ys : List A) → n ≤ length xs → drop n (xs ++ ys) ≡ drop n xs ++ ys
  drop-append zero xs ys h = refl
  drop-append (suc n) [] ys h = absurd (omega arith)
  drop-append (suc n) (x ∷ xs) ys h = drop-append n xs ys (omega arith)

  length-drop : (n : ℕ) (xs : List A) → length (drop n xs) ≡ length xs - n
  length-drop zero xs = omega arith
  length-drop (suc n) [] = omega arith
  length-drop (suc n) (x ∷ xs) = omega (arith, length-drop n xs)

  length-last : (n : ℕ) (xs : List A) → n ≤ length xs → length (last n xs) ≡ n
  length-last n xs h = omega (arith, length-drop (length xs - n) xs)

  drop-set : (i : ℕ) (xs : List A) (v : A) → drop (suc i) (set xs i v) ≡ drop (suc i) xs
  drop-set zero [] v = refl
  drop-set zero (x ∷ xs) v = refl
  drop-set (suc i) [] v = refl
  drop-set (suc i) (x ∷ xs) v = drop-set i xs v

  take-set :
      (i : ℕ) (xs : List A) (v : A)
      → i < length xs
      → take (suc i) (set xs i v) ≡ take i xs ++ v ∷ []
  take-set i [] v h = absurd (omega arith)
  take-set zero (x ∷ xs) v h = refl
  take-set (suc i) (x ∷ xs) v h = ap (◌∷◌ x) (take-set i xs v (omega arith))

  drop-one : (i : ℕ) (xs : List A) → i < length xs → drop 1 (drop i xs) ≡ drop (suc i) xs
  drop-one i [] h = absurd (omega arith)
  drop-one zero (x ∷ xs) h = refl
  drop-one (suc i) (x ∷ xs) h = drop-one i xs (omega arith)

  -- A write at `i` replaces the oldest entry and puts the new one last.
  rotate-set :
      (i : ℕ) (xs : List A) (v : A)
      → i < length xs
      → drop (suc i) (set xs i v) ++ take (suc i) (set xs i v)
        ≡ drop 1 (drop i xs ++ take i xs) ++ v ∷ []
  rotate-set i xs v h =
      rw
        (
          drop-set i xs v,
          take-set i xs v h,
          drop-append 1 (drop i xs) (take i xs) (omega (arith, length-drop i xs)),
          drop-one i xs h,
        )
        (sym (append_assoc (drop (suc i) xs) (take i xs) (v ∷ [])))

  -- The oldest of the last `n` falls out when one more comes.
  last-snoc :
      (n : ℕ) (xs : List A) (v : A)
      → 0 < n
      → n ≤ length xs
      → last n (xs ++ v ∷ []) ≡ drop 1 (last n xs) ++ v ∷ []
  last-snoc n xs v p h =
      let e : length (xs ++ v ∷ []) - n ≡ suc (length xs - n) =
        omega (arith, length-append xs (v ∷ [])) in
      rw (
        e,
        drop-append (suc (length xs - n)) xs (v ∷ []) (omega arith),
        drop-one (length xs - n) xs (omega arith),
      )

-- A ring that is filling, and one that is full, after the pushes `h`.
data Holds (r : TimeSeriesRing) (h : List TimeBucket) : Type 0 where
  filling :
      length h < ring_capacity
      → r.buckets ≡ h
      → r.write_pos ≡ length h
      → r.len ≡ length h
      → Holds r h
  full :
      ring_capacity ≤ length h
      → length r.buckets ≡ ring_capacity
      → r.write_pos < ring_capacity
      → r.len ≡ ring_capacity
      → drop r.write_pos r.buckets ++ take r.write_pos r.buckets ≡ last ring_capacity h
      → Holds r h

entries-last :
    (r : TimeSeriesRing) (h : List TimeBucket) → Holds r h → entries r ≡ last ring_capacity h
unfolding entries
entries-last r h (filling small b w l) =
    let e : length h - ring_capacity ≡ 0 = omega arith in
    rw (lt→ltb r.len ring_capacity (omega arith), e) b
entries-last r h (full big b w l o) = rw l o

push_room :
    (r : TimeSeriesRing) (b : TimeBucket)
    → length r.buckets < ring_capacity
    → (push r b).buckets ≡ r.buckets ++ b ∷ []
unfolding push
push_room r b h = rw (lt→ltb _ _ h)

push_over :
    (r : TimeSeriesRing) (b : TimeBucket)
    → length r.buckets ≡ ring_capacity
    → (push r b).buckets ≡ set r.buckets r.write_pos b
unfolding push
push_over r b h = let shut : ltb (length r.buckets) ring_capacity ≡ false = ground arith in rw shut

-- The position after the last one is the first.
rotate_wrap :
    (i : ℕ) (xs : List TimeBucket)
    → length xs ≡ ring_capacity
    → i < ring_capacity
    → drop ((i + 1) % ring_capacity) xs ++ take ((i + 1) % ring_capacity) xs
      ≡ drop (suc i) xs ++ take (suc i) xs
rotate_wrap i xs n h = elim (Bool-cases (ltb (i + 1) ring_capacity)) [
  | inl more ↦ let e : (i + 1) % ring_capacity ≡ suc i = omega (arith, ltb→lt _ _ more) in rw e
  | inr done ↦
      let e : (i + 1) % ring_capacity ≡ 0 = ground arith in
      rw
        (
          e,
          drop_of_length-le (suc i) xs (ground arith),
          take_of_length-le (suc i) xs (ground arith),
        )
        (append-nil xs)
]

push-filling :
    (r : TimeSeriesRing) (h : List TimeBucket) (b : TimeBucket)
    → length h < ring_capacity
    → r.buckets ≡ h
    → r.write_pos ≡ length h
    → r.len ≡ length h
    → Holds (push r b) (h ++ b ∷ [])
unfolding push
push-filling r h b small e w l =
    let n : length (h ++ b ∷ []) ≡ length h + 1 = length-append h (b ∷ []) in
    let n' : length r.buckets ≡ length h = ap length e in
    let held : (push r b).buckets ≡ h ++ b ∷ [] =
      push_room r b (omega arith) ∙ ap (λ k. k ++ b ∷ []) e in
    elim (Bool-cases (ltb (length h + 1) ring_capacity)) [
      | inl more ↦ filling (omega (arith, ltb→lt _ _ more)) held (ground arith) (ground arith)
      | inr done ↦
          let e₀ : (push r b).write_pos ≡ 0 = ground arith in
          let z : length (h ++ b ∷ []) - ring_capacity ≡ 0 = ground arith in
          full (ground arith) (ap length held ∙ ground arith) (omega arith) (ground arith)
            (rw (e₀, z) (append-nil _ ∙ held))
    ]

push-full :
    (r : TimeSeriesRing) (h : List TimeBucket) (b : TimeBucket)
    → ring_capacity ≤ length h
    → length r.buckets ≡ ring_capacity
    → r.write_pos < ring_capacity
    → r.len ≡ ring_capacity
    → drop r.write_pos r.buckets ++ take r.write_pos r.buckets ≡ last ring_capacity h
    → Holds (push r b) (h ++ b ∷ [])
unfolding push
push-full r h b big n w l o =
    let n' : length (set r.buckets r.write_pos b) ≡ ring_capacity =
      length-set r.buckets r.write_pos b ∙ n in
    full (omega (arith, length-append h (b ∷ []))) (ap length (push_over r b n) ∙ n') (omega arith)
      (ground arith)
      (rw (push_over r b n) (
        rotate_wrap r.write_pos (set r.buckets r.write_pos b) n' w
        ∙ rotate-set r.write_pos r.buckets b (omega arith)
        ∙ ap (λ k. drop 1 k ++ b ∷ []) o
        ∙ sym (last-snoc ring_capacity h b (omega arith) big)))

push-Holds :
    (r : TimeSeriesRing) (h : List TimeBucket) (b : TimeBucket)
    → Holds r h
    → Holds (push r b) (h ++ b ∷ [])
push-Holds r h b (filling small e w l) = push-filling r h b small e w l
push-Holds r h b (full big n w l o) = push-full r h b big n w l o

push_all-Holds :
    (r : TimeSeriesRing) (h bs : List TimeBucket) → Holds r h → Holds (push_all r bs) (h ++ bs)
push_all-Holds r h [] v = rw (append-nil h) v
push_all-Holds r h (b ∷ bs) v =
    subst (Holds (push_all (push r b) bs)) (append_assoc h (b ∷ []) bs)
      (push_all-Holds (push r b) (h ++ b ∷ []) bs (push-Holds r h b v))

-- After any pushes into a new ring, `entries` are the last 1440 of them, oldest first.
pub entries-push_all :
    (bs : List TimeBucket) → entries (push_all new_ring bs) ≡ last ring_capacity bs
entries-push_all bs =
    entries-last _ bs (push_all-Holds new_ring [] bs (filling (omega arith) refl refl refl))
