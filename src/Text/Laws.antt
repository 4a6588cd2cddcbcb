-- ===== src/Text/Laws.antt =====
-- Laws of the string functions: equality, prefixes, trimming.
use gateway_service.Prelude.{
  ℕ, ◌≡◌, ◌≢◌, ◌↔◌, inl, inr, refl, true, [], ◌∷◌, ◌++◌, reverse, arith, ◌==◌, Bool-cases, length,
  drop,
}
use mathlib.Core.List.{reverse-append, reverse-reverse}
use gateway_service.Text.{Str, eqb, has_prefix, trim_prefix, trim_left, trim_right}

pub eqb_iff : (s t : Str) → (eqb s t ≡ true) ↔ (s ≡ t)
unfolding eqb
eqb_iff [] [] = (λ _. refl, λ _. refl)
eqb_iff [] (b ∷ t) = (λ e. cc, λ e. cc)
eqb_iff (a ∷ s) [] = (λ e. cc, λ e. cc)
eqb_iff (a ∷ s) (b ∷ t) = ground (arith, eqb_iff s t)

pub eqb_refl : (s : Str) → eqb s s ≡ true
eqb_refl s = (eqb_iff s s).1 refl

-- A prefix is what an append puts in front.
pub has_prefix_sound : (s p : Str) → has_prefix s p ≡ true → s ≡ p ++ drop (length p) s
unfolding has_prefix
has_prefix_sound s [] h = refl
has_prefix_sound [] (b ∷ p) h = cc
has_prefix_sound (a ∷ s) (b ∷ p) h = ground (arith, has_prefix_sound s p)

pub has_prefix-append : (p s : Str) → has_prefix (p ++ s) p ≡ true
unfolding has_prefix
has_prefix-append [] [] = refl
has_prefix-append [] (a ∷ s) = refl
has_prefix-append (b ∷ p) s = ground (arith, has_prefix-append p s)

pub drop-append : (p s : Str) → drop (length p) (p ++ s) ≡ s
drop-append [] s = refl
drop-append (b ∷ p) s = drop-append p s

pub trim_prefix-append : (p s : Str) → trim_prefix (p ++ s) p ≡ s
unfolding trim_prefix
trim_prefix-append p s = rw has_prefix-append (drop-append p s)

-- The text does not start with the byte.
abbrev pub NotLed : ℕ → Str → Type 0
NotLed c [] = Unit
NotLed c (a ∷ s) = a ≢ c

pub trim_left-NotLed : (s : Str) (c : ℕ) → NotLed c (trim_left s c)
unfolding trim_left
trim_left-NotLed [] c = tt
trim_left-NotLed (a ∷ s) c = elim (Bool-cases (a == c)) [
  | inl e ↦ rw e (trim_left-NotLed s c)
  | inr e ↦ rw e (ground arith)
]

pub trim_left_of_NotLed : (s : Str) (c : ℕ) → NotLed c s → trim_left s c ≡ s
unfolding trim_left
trim_left_of_NotLed [] c h = refl
trim_left_of_NotLed (a ∷ s) c h = ground arith

-- The text does not end with the byte.
abbrev pub NotEnded : ℕ → Str → Type 0
NotEnded c s = NotLed c (reverse s)

pub trim_right-NotEnded : (s : Str) (c : ℕ) → NotEnded c (trim_right s c)
unfolding trim_right
trim_right-NotEnded s c = rw reverse-reverse (trim_left-NotLed (reverse s) c)

pub trim_right_of_NotEnded : (s : Str) (c : ℕ) → NotEnded c s → trim_right s c ≡ s
unfolding trim_right
trim_right_of_NotEnded s c h = rw (trim_left_of_NotLed (reverse s) c h) (reverse-reverse s)

pub trim_right_concat : (s : Str) (c : ℕ) → trim_right (s ++ c ∷ []) c ≡ trim_right s c
unfolding trim_right trim_left
trim_right_concat s c = rw (reverse-append s (c ∷ [])) (ground arith)
