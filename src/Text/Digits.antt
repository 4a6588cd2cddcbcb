-- ===== src/Text/Digits.antt =====
-- The digits that strconv.Itoa writes.
use gateway_service.Prelude.{
  ℕ, zero, suc, ◌+◌, ◌*◌, ◌-◌, ◌/◌, ◌%◌, ◌<◌, ◌≡◌, sym, ap, ◌∙◌, [], ◌∷◌, arith, ltb, Bool-cases,
  inl, inr,
}
use gateway_service.Text.{Str, itoa, itoa_from}

-- The number that digits write behind a number.
number : ℕ → Str → ℕ
number acc [] = acc
number acc (c ∷ s) = number (acc * 10 + (c - b'0')) s

number_digit :
    (n acc : ℕ) (out : Str) → number acc ((b'0' + n % 10) ∷ out) ≡ number (acc * 10 + n % 10) out
unfolding number
number_digit n acc out = ap (λ (d : ℕ). number (acc * 10 + d) out) (omega arith)

number-itoa_from :
    (fuel n : ℕ) (out : Str) → n < fuel → number 0 (itoa_from fuel n out) ≡ number n out
unfolding itoa_from
number-itoa_from zero n out h = absurd (omega arith)
number-itoa_from (suc fuel) n out h = elim (Bool-cases (ltb n 10)) [
  | inl small ↦ rw small (number_digit n 0 out ∙ ap (λ (m : ℕ). number m out) (ground arith))
  | inr large ↦ rw large (
      number-itoa_from fuel (n / 10) _ (ground arith)
      ∙ number_digit n (n / 10) out
      ∙ ap (λ (m : ℕ). number m out) (omega arith))
]

pub itoa-injective : (m n : ℕ) → itoa m ≡ itoa n → m ≡ n
unfolding itoa number
itoa-injective m n e =
    sym (number-itoa_from (suc m) m [] (omega arith))
    ∙ ap (number 0) e
    ∙ number-itoa_from (suc n) n [] (omega arith)
