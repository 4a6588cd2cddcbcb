-- ===== src/Text/Encoding/Valid.antt =====
-- Replacing invalid bytes by nothing does not lengthen a text.
use gateway_service.Prelude.{ℕ, zero, suc, ◌≤◌, [], ◌∷◌, arith, length, ◌≡◌, inl, inr, ◌⊎◌, refl}
use gateway_service.Text.{Str}
use gateway_service.Text.Encoding.{to_valid_from, to_valid_utf8, rune_width}

ℕ-cases : (n : ℕ) → (n ≡ 0) ⊎ ((k : ℕ) × (n ≡ suc k))
ℕ-cases zero = inl refl
ℕ-cases (suc n) = inr (n, refl)

length-to_valid_from : (n : ℕ) (s : Str) → length (to_valid_from n s) ≤ length s
unfolding to_valid_from
length-to_valid_from zero [] = omega arith
length-to_valid_from (suc n) [] = omega arith
length-to_valid_from (suc n) (a ∷ s) = omega (arith, length-to_valid_from n s)
length-to_valid_from zero (a ∷ s) = elim (ℕ-cases (rune_width (a ∷ s))) [
  | inl e ↦ rw (e, to_valid_from) (omega (arith, length-to_valid_from 0 s))
  | inr (k, e) ↦ rw (e, to_valid_from) (omega (arith, length-to_valid_from k s))
]

pub length-to_valid_utf8 : (s : Str) → length (to_valid_utf8 s) ≤ length s
unfolding to_valid_utf8
length-to_valid_utf8 s = length-to_valid_from 0 s
