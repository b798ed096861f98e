-- ===== src/Base/Decimal.antt =====
-- A number in a template literal, `${n}`, and that different numbers read differently.
use Prim.Native.Nat.{ℕ, zero, suc, ◌+◌, ◌-◌, ◌*◌, ◌/◌, ◌%◌, ◌<◌}
use Prim.Native.Char.{Char, code}
use Prim.Native.String.{String}
use mathlib.Core.Path.{◌≡◌, refl, ap, sym, ◌∙◌}
use mathlib.Core.Logic.{inl, inr}
use native.Mathlib.Omega.{arith}
use rtc_session_gateway.Base.Tests.{if◌then◌else◌, eqb, Bool-cases}

digit : ℕ → Char
digit zero = "0"
digit (suc zero) = "1"
digit (suc (suc zero)) = "2"
digit (suc (suc (suc zero))) = "3"
digit (suc (suc (suc (suc zero)))) = "4"
digit (suc (suc (suc (suc (suc zero))))) = "5"
digit (suc (suc (suc (suc (suc (suc zero)))))) = "6"
digit (suc (suc (suc (suc (suc (suc (suc zero))))))) = "7"
digit (suc (suc (suc (suc (suc (suc (suc (suc zero)))))))) = "8"
digit _ = "9"

-- the digits of `n` before `tail`, with fuel
digits : ℕ → ℕ → String → String
digits zero n tail = tail
digits (suc f) n tail =
    let rest = digits f (n / 10) (String.◌∷◌ (digit (n % 10)) tail) in
    if eqb (n / 10) 0 then String.◌∷◌ (digit (n % 10)) tail else rest

unfoldable pub decimal : ℕ → String
unfolding digits digit
decimal n = digits (suc n) n ""

-- reading the digits back, after those that make `v`
value : ℕ → String → ℕ
value v String.[] = v
value v (String.◌∷◌ c s) = value (v * 10 + (code c - b'0')) s

code-digit : (n : ℕ) → n < 10 → code (digit n) ≡ n + 48
unfolding digit
code-digit zero h = refl
code-digit (suc zero) h = refl
code-digit (suc (suc zero)) h = refl
code-digit (suc (suc (suc zero))) h = refl
code-digit (suc (suc (suc (suc zero)))) h = refl
code-digit (suc (suc (suc (suc (suc zero))))) h = refl
code-digit (suc (suc (suc (suc (suc (suc zero)))))) h = refl
code-digit (suc (suc (suc (suc (suc (suc (suc zero))))))) h = refl
code-digit (suc (suc (suc (suc (suc (suc (suc (suc zero)))))))) h = refl
code-digit (suc (suc (suc (suc (suc (suc (suc (suc (suc zero))))))))) h = refl
code-digit (suc (suc (suc (suc (suc (suc (suc (suc (suc (suc n)))))))))) h = absurd (omega arith)

digit_step : (v n : ℕ) → n < 10 → v * 10 + (code (digit n) - b'0') ≡ v * 10 + n
digit_step v n h = omega (arith, code-digit n h)

value-digits : (f n : ℕ) (tail : String) → n < f → value 0 (digits f n tail) ≡ value n tail
unfolding digits value
value-digits zero n tail h = absurd (omega arith)
value-digits (suc f) n tail h = elim (Bool-cases (eqb (n / 10) 0)) [
  | inl last ↦
      rw last (ap (λ (t : ℕ). value t tail) (digit_step 0 (n % 10) (omega arith) ∙ ground arith))
  | inr more ↦ rw more (
      value-digits f (n / 10) (String.◌∷◌ (digit (n % 10)) tail) (ground arith)
      ∙ ap (λ (t : ℕ). value t tail) (digit_step (n / 10) (n % 10) (omega arith) ∙ omega arith))
]

pub decimal_injective : (m n : ℕ) → decimal m ≡ decimal n → m ≡ n
unfolding decimal value
decimal_injective m n e =
    sym (value-digits (suc m) m "" (omega arith))
    ∙ ap (value 0) e
    ∙ value-digits (suc n) n "" (omega arith)

decimal_test : decimal 2048 ≡ "2048"
unfolding decimal
decimal_test = refl
