-- ===== src/Text/Trimming.antt =====
-- strings.TrimSpace on a text that is trimmed already.
use mathlib.Core.List.{reverse-append, reverse-reverse}
use mathlib.Core.Path.{subst}
use gateway_service.Prelude.{
  Bool-cases, ℕ, zero, suc, ◌≡◌, refl, sym, ap, ◌∙◌, [], ◌∷◌, ◌++◌, reverse, arith, ◌⊎◌, inl, inr,
  ◌==◌, leb, ◌&&◌, ◌||◌,
}
use gateway_service.Text.{Str, space_width, space_width_back, trim_space, trim_space_from}

nat-cases : (n : ℕ) → (n ≡ 0) ⊎ ((m : ℕ) × (n ≡ suc m))
nat-cases zero = inl refl
nat-cases (suc m) = inr (m, refl)

one_zero : ◌≡◌ {A = ℕ} 1 0 → ⊥
one_zero e = omega arith

two_zero : ◌≡◌ {A = ℕ} 2 0 → ⊥
two_zero e = omega arith

-- A text that is empty or starts with no white space, as a measure of its start sees it.
abbrev NotSpaced : (Str → ℕ) → Str → Type 0
NotSpaced width [] = Unit
NotSpaced width (a ∷ s) = width (a ∷ s) ≡ 0

module _ (width : Str → ℕ) where
  trim_space_from_keep : (s : Str) → NotSpaced width s → trim_space_from width 0 s ≡ s
  unfolding trim_space_from
  trim_space_from_keep [] h = refl
  trim_space_from_keep (a ∷ s) h = rw (h, trim_space_from) refl

  trim_space_from_skip :
      (n a : ℕ) (s : Str)
      → width (a ∷ s) ≡ suc n
      → trim_space_from width 0 (a ∷ s) ≡ trim_space_from width n s
  unfolding trim_space_from
  trim_space_from_skip n a s h = rw (h, trim_space_from) refl

  trim_space_from-NotSpaced : (n : ℕ) (s : Str) → NotSpaced width (trim_space_from width n s)
  unfolding trim_space_from
  trim_space_from-NotSpaced n [] = tt
  trim_space_from-NotSpaced (suc n) (a ∷ s) = trim_space_from-NotSpaced n s
  trim_space_from-NotSpaced zero (a ∷ s) = elim (nat-cases (width (a ∷ s))) [
    | inl e ↦ rw (trim_space_from_keep (a ∷ s) e) e
    | inr (n, e) ↦ rw (trim_space_from_skip n a s e) (trim_space_from-NotSpaced n s)
  ]

  -- What is trimmed is cut off in front.
  trim_space_from-drops : (n : ℕ) (s : Str) → (cut : Str) × (cut ++ trim_space_from width n s ≡ s)
  unfolding trim_space_from
  trim_space_from-drops n [] = ([], refl)
  trim_space_from-drops (suc n) (a ∷ s) =
      let (cut, e) = trim_space_from-drops n s in (a ∷ cut, ap (λ (t : Str). a ∷ t) e)
  trim_space_from-drops zero (a ∷ s) = elim (nat-cases (width (a ∷ s))) [
    | inl e ↦ ([], trim_space_from_keep (a ∷ s) e)
    | inr (n, e) ↦
        let (cut, same) = trim_space_from-drops n s in
        (
          a ∷ cut,
          ap (λ (t : Str). a ∷ cut ++ t) (trim_space_from_skip n a s e)
              ∙ ap (λ (t : Str). a ∷ t) same,
        )
  ]

-- A prefix starts with white space only if the text does.
space_width_prefix : (a : ℕ) (u t : Str) → space_width (a ∷ u ++ t) ≡ 0 → space_width (a ∷ u) ≡ 0
unfolding space_width
space_width_prefix a [] [] h = h
space_width_prefix a [] (b ∷ []) h = elim (Bool-cases (leb 9 a && leb a 13 || a == 32)) [
  | inl space ↦ absurd (one_zero (rw space at h))
  | inr other ↦ rw other refl
]
space_width_prefix a [] (b ∷ c ∷ t) h = elim (Bool-cases (leb 9 a && leb a 13 || a == 32)) [
  | inl space ↦ absurd (one_zero (rw space at h))
  | inr other ↦ rw other refl
]
space_width_prefix a (b ∷ []) [] h = h
space_width_prefix a (b ∷ []) (c ∷ t) h = elim (Bool-cases (leb 9 a && leb a 13 || a == 32)) [
  | inl space ↦ absurd (one_zero (rw space at h))
  | inr other ↦ elim (Bool-cases (a == 0xc2 && (b == 0x85 || b == 0xa0))) [
    | inl wide ↦ absurd (two_zero (rw (other, wide) at h))
    | inr narrow ↦ rw (other, narrow) refl
  ]
]
space_width_prefix a (b ∷ c ∷ u) t h = h

NotSpaced-prefix : (u t : Str) → NotSpaced space_width (u ++ t) → NotSpaced space_width u
NotSpaced-prefix [] t h = tt
NotSpaced-prefix (a ∷ u) t h = space_width_prefix a u t h

abbrev trim_left_space : Str → Str
trim_left_space s = trim_space_from space_width 0 s

abbrev trim_right_space : Str → Str
trim_right_space s = reverse (trim_space_from space_width_back 0 (reverse s))

trim_right_space-prefix : (s : Str) → (cut : Str) × (trim_right_space s ++ cut ≡ s)
trim_right_space-prefix s =
    let (cut, e) = trim_space_from-drops space_width_back 0 (reverse s) in
    (
      reverse cut,
      sym (reverse-append cut (trim_space_from space_width_back 0 (reverse s)))
          ∙ ap (λ (t : Str). reverse t) e
          ∙ reverse-reverse s,
    )

trim_right_space_again : (s : Str) → trim_right_space (trim_right_space s) ≡ trim_right_space s
trim_right_space_again s =
    let back = trim_space_from space_width_back 0 (reverse s) in
    ap (λ (t : Str). reverse (trim_space_from space_width_back 0 t)) (reverse-reverse back)
    ∙ ap (λ (t : Str). reverse t)
        (trim_space_from_keep space_width_back back
          (trim_space_from-NotSpaced space_width_back 0 (reverse s)))

-- A text that is trimmed stays as it is.
pub trim_space_again : (s : Str) → trim_space (trim_space s) ≡ trim_space s
unfolding trim_space
trim_space_again s =
    let front = trim_left_space s in
    let (cut, e) = trim_right_space-prefix front in
    let starts : NotSpaced space_width (trim_right_space front) =
      NotSpaced-prefix (trim_right_space front) cut
        (subst (NotSpaced space_width) (sym e) (trim_space_from-NotSpaced space_width 0 s)) in
    ap trim_right_space (trim_space_from_keep space_width (trim_right_space front) starts)
    ∙ trim_right_space_again front
