-- ===== src/Error.antt =====
-- src/error.rs: the error type of the store, without the messages of the wrapped errors.
use moar.Common.{◌≡◌, refl, ap, Option, none, some}

pub data Error : Type 0 where
  io heed json toml nostr : Error

pub data Result {κ} (T : Type κ) : Type κ where
  err : Error → Result T
  ok : T → Result T

pub ok-injective {κ} : {T : Type κ} {a b : T} → ok a ≡ ok b → a ≡ b
ok-injective same = cc

-- `?` of an absent value, which is this error.
abbrev pub ok_or {κ} : {T : Type κ} → Error → Option T → Result T
ok_or why none = err why
ok_or why (some value) = ok value

pub ok_or-eq-ok {κ} :
    {T : Type κ} (why : Error) (o : Option T) {value : T} → ok_or why o ≡ ok value → o ≡ some value
ok_or-eq-ok why none h = cc
ok_or-eq-ok why (some value) h = ap some (ok-injective h)

-- `?` in the middle of a function: the rest runs on a value, and an error is returned.
infixl 5 ◌>>=◌
abbrev pub ◌>>=◌ {κ μ} : {T : Type κ} {U : Type μ} → Result T → (T → Result U) → Result U
err why >>= rest = err why
ok value >>= rest = rest value

-- What a `do` block that succeeds ran through.
pub >>=-eq-ok {κ μ} :
    {T : Type κ} {U : Type μ} (step : Result T) (rest : T → Result U) {out : U}
    → (step >>= rest) ≡ ok out
    → (value : T) × (step ≡ ok value) × (rest value ≡ ok out)
>>=-eq-ok (err why) rest h = cc
>>=-eq-ok (ok value) rest h = (value, refl, h)
