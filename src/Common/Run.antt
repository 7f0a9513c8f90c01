-- ===== src/Common/Run.antt =====
-- What a Rust call comes to: a value, an `io::Error`, a panic, or, where the model bounds a loop by
-- fuel, no answer yet.
use mathlib.Core.Path.{◌≡◌, refl}
use mathlib.Core.Bool.{Bool, true, false}
use mathlib.Core.Option.{Option, none, some}

pub data IoError : Type 0 where
  unexpected_eof invalid_data write_zero : IoError

pub data Run {ℓ} (Val : Type ℓ) : Type ℓ where
  panic : Run Val
  out_of_fuel : Run Val
  err : IoError → Run Val
  ok : Val → Run Val

-- `?` and the unwinding of a panic: what is no value ends the rest.
abbrev pub ◌>>=◌ {ℓ₁ ℓ₂} : {Val : Type ℓ₁} {Next : Type ℓ₂} → Run Val → (Val → Run Next) → Run Next
panic >>= rest = panic
out_of_fuel >>= rest = out_of_fuel
err failure >>= rest = err failure
ok v >>= rest = rest v

infixl 5 ◌>>=◌
-- `expect` of a result: an error is a panic.
abbrev pub expect {ℓ} : {Val : Type ℓ} → Run Val → Run Val
expect panic = panic
expect out_of_fuel = out_of_fuel
expect (err failure) = panic
expect (ok v) = ok v

-- A sequence that succeeds has a first part that does.
pub >>=-eq-ok {ℓ₁ ℓ₂} :
    {Val : Type ℓ₁} {Next : Type ℓ₂} (first : Run Val) (rest : Val → Run Next) {r : Next}
    → (first >>= rest) ≡ ok r
    → (v : Val) × (first ≡ ok v) × (rest v ≡ ok r)
>>=-eq-ok panic rest e = cc
>>=-eq-ok out_of_fuel rest e = cc
>>=-eq-ok (err failure) rest e = cc
>>=-eq-ok (ok v) rest e = (v, refl, e)

-- Laws of the sequence: equal continuations, and grouping.
pub bind_ext {ℓ₁ ℓ₂} :
    {Val : Type ℓ₁} {Next : Type ℓ₂} (first : Run Val) {rest rest' : Val → Run Next}
    → ((v : Val) → rest v ≡ rest' v)
    → (first >>= rest) ≡ (first >>= rest')
bind_ext panic same = refl
bind_ext out_of_fuel same = refl
bind_ext (err failure) same = refl
bind_ext (ok v) same = same v

pub bind_group {ℓ₁ ℓ₂ ℓ₃} :
    {Val : Type ℓ₁} {Next : Type ℓ₂} {Last : Type ℓ₃} (first : Run Val) (rest : Val → Run Next)
    (last : Next → Run Last)
    → (first >>= λ v. rest v >>= last) ≡ ((first >>= rest) >>= last)
bind_group panic rest last = refl
bind_group out_of_fuel rest last = refl
bind_group (err failure) rest last = refl
bind_group (ok v) rest last = refl

pub ok-inj {ℓ} : {Val : Type ℓ} {u v : Val} → ok u ≡ ok v → u ≡ v
ok-inj e = cc

-- A sequence of sequences, by the cases of what the first comes to.
pub bind_group_option {ℓ₁ ℓ₂ ℓ₃} :
    {Val : Type ℓ₁} {Next : Type ℓ₂} {Last : Type ℓ₃} (first : Run (Option Val))
    (rest : Option Val → Run Next) (last : Next → Run Last) (whole : Option Val → Run Last)
    → (rest none >>= last) ≡ whole none
    → ((v : Val) → (rest (some v) >>= last) ≡ whole (some v))
    → ((first >>= rest) >>= last) ≡ (first >>= whole)
bind_group_option panic rest last whole at_none at_some = refl
bind_group_option out_of_fuel rest last whole at_none at_some = refl
bind_group_option (err failure) rest last whole at_none at_some = refl
bind_group_option (ok none) rest last whole at_none at_some = at_none
bind_group_option (ok (some v)) rest last whole at_none at_some = at_some v

-- Two runs that begin alike, by the cases of what the beginning comes to.
pub bind_agree_bool {ℓ₁ ℓ₂ ℓ₃} :
    {Next : Type ℓ₁} {Next' : Type ℓ₂} {Last : Type ℓ₃} (first : Run Bool) (rest : Bool → Run Next)
    (last : Next → Run Last) (rest' : Bool → Run Next') (last' : Next' → Run Last)
    → (rest true >>= last) ≡ (rest' true >>= last')
    → (rest false >>= last) ≡ (rest' false >>= last')
    → ((first >>= rest) >>= last) ≡ ((first >>= rest') >>= last')
bind_agree_bool panic rest last rest' last' at_true at_false = refl
bind_agree_bool out_of_fuel rest last rest' last' at_true at_false = refl
bind_agree_bool (err failure) rest last rest' last' at_true at_false = refl
bind_agree_bool (ok true) rest last rest' last' at_true at_false = at_true
bind_agree_bool (ok false) rest last rest' last' at_true at_false = at_false

pub bind_agree_option {ℓ₁ ℓ₂ ℓ₃ ℓ₄} :
    {Val : Type ℓ₁} {Next : Type ℓ₂} {Next' : Type ℓ₃} {Last : Type ℓ₄} (first : Run (Option Val))
    (rest : Option Val → Run Next) (last : Next → Run Last) (rest' : Option Val → Run Next')
    (last' : Next' → Run Last)
    → (rest none >>= last) ≡ (rest' none >>= last')
    → ((v : Val) → (rest (some v) >>= last) ≡ (rest' (some v) >>= last'))
    → ((first >>= rest) >>= last) ≡ ((first >>= rest') >>= last')
bind_agree_option panic rest last rest' last' at_none at_some = refl
bind_agree_option out_of_fuel rest last rest' last' at_none at_some = refl
bind_agree_option (err failure) rest last rest' last' at_none at_some = refl
bind_agree_option (ok none) rest last rest' last' at_none at_some = at_none
bind_agree_option (ok (some v)) rest last rest' last' at_none at_some = at_some v
