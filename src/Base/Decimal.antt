-- ===== src/Base/Decimal.antt =====
-- Decimal print of integers, as `%d` gives it.
use go_ecoflow_exporter.Base.Tests.{ltb, if◌then◌else◌, Bool-cases}
use go_ecoflow_exporter.Base.Texts.{Text}
use go_ecoflow_exporter.Base.Lists.{All}
use go_ecoflow_exporter.Base.Int.{ℤ, pos, negsuc}
use Prim.Native.Nat.{ℕ, zero, suc, ◌+◌, ◌-◌, ◌*◌, ◌/◌, ◌%◌, ◌<◌}
use mathlib.Core.Path.{◌≡◌, sym, ap, ◌∙◌}
use mathlib.Core.Logic.{◌≢◌, inl, inr}
use mathlib.Core.List.{[], ◌∷◌, foldl}
use native.Mathlib.Omega.{arith}

-- The digits of `n` in front of `out`; the fuel exceeds the number.
digits : ℕ → ℕ → Text → Text
digits zero n out = out
digits (suc fuel) n out =
    let rest = digits fuel (n / 10) ((b'0' + n % 10) ∷ out) in
    if ltb n 10 then (b'0' + n) ∷ out else rest

unfoldable pub format_nat : ℕ → Text
unfolding digits
format_nat n = digits (suc n) n []

unfoldable pub format_int : ℤ → Text
unfolding format_nat
format_int (pos n) = format_nat n
format_int (negsuc n) = b'-' ∷ format_nat (suc n)

abbrev value_from : ℕ → Text → ℕ
value_from = foldl (λ n c. n * 10 + (c - b'0'))

value-digits :
    (fuel n : ℕ) (out : Text) → n < fuel → value_from 0 (digits fuel n out) ≡ value_from n out
unfolding digits
value-digits zero n out h = elim h [ ]
value-digits (suc fuel) n out h = elim (Bool-cases (ltb n 10)) [
  | inl e ↦ rw e (ap (λ (k : ℕ). value_from k out) (ground arith))
  | inr e ↦ rw e (
      value-digits fuel (n / 10) ((b'0' + n % 10) ∷ out) (ground arith)
      ∙ ap (λ (k : ℕ). value_from k out) (ground arith))
]

pub format_nat_injective : (a b : ℕ) → format_nat a ≡ format_nat b → a ≡ b
unfolding format_nat
format_nat_injective a b e =
    sym (value-digits (suc a) a [] (omega arith))
    ∙ ap (value_from 0) e
    ∙ value-digits (suc b) b [] (omega arith)

All-digits :
    (fuel n c : ℕ) (out : Text)
    → c < b'0'
    → All (λ d. d ≢ c) out
    → All (λ d. d ≢ c) (digits fuel n out)
unfolding digits
All-digits zero n c out low h = h
All-digits (suc fuel) n c out low h = elim (Bool-cases (ltb n 10)) [
  | inl e ↦ rw e (omega arith, h)
  | inr e ↦ rw e (All-digits fuel (n / 10) c ((b'0' + n % 10) ∷ out) low (omega arith, h))
]

-- No character below the digits, such as a dot, is printed.
pub All-format_nat : (n c : ℕ) → c < b'0' → All (λ d. d ≢ c) (format_nat n)
unfolding format_nat
All-format_nat n c low = All-digits (suc n) n c [] low tt
