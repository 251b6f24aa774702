-- ===== src/Values/Laws.antt =====
-- Trimmed text, names and codes are normal: normalizing them again changes nothing
-- (internal/domain/value/validation.go).
use mathlib.Core.List.{reverse, reverse-append, reverse-reverse}
use many_router.Base.{
  ℕ, false, [], ◌∷◌, ◌++◌, Text, ◌≡◌, refl, sym, ap, ◌∙◌, ◌⊎◌, inl, inr, arith, is_space,
  drop_spaces, trim_space, ok, Bool-cases,
}
use many_router.Values.{normalize_code, normalize_name}

-- What is left of a text without its leading spaces: nothing, or text that begins with no space.
drop_spaces_cases :
    (s : Text)
    → (drop_spaces s ≡ []) ⊎ ((c : ℕ) × (t : Text) × (drop_spaces s ≡ c ∷ t) × (is_space c ≡ false))
unfolding drop_spaces
drop_spaces_cases [] = inl refl
drop_spaces_cases (c ∷ s) = elim (Bool-cases (is_space c)) [
  | inl e ↦ rw e (drop_spaces_cases s)
  | inr e ↦ inr (c, s, rw e refl, e)
]

drop_spaces-append :
    (s : Text) (c : ℕ)
    → is_space c ≡ false
    → drop_spaces (s ++ (c ∷ [])) ≡ drop_spaces s ++ (c ∷ [])
unfolding drop_spaces
drop_spaces-append [] c h = rw h refl
drop_spaces-append (d ∷ s) c h = elim (Bool-cases (is_space d)) [
  | inl e ↦ rw e (drop_spaces-append s c h)
  | inr e ↦ rw e refl
]

-- Text that begins with no space, without the spaces at its end, begins with the same character.
trim_end :
    (c : ℕ) (t : Text)
    → is_space c ≡ false
    → reverse (drop_spaces (reverse (c ∷ t))) ≡ c ∷ reverse (drop_spaces (reverse t))
trim_end c t h =
    ap (λ s. reverse (drop_spaces s)) (reverse-append (c ∷ []) t)
    ∙ ap reverse (drop_spaces-append (reverse t) c h)
    ∙ reverse-append (drop_spaces (reverse t)) (c ∷ [])

drop_spaces_idem : (s : Text) → drop_spaces (drop_spaces s) ≡ drop_spaces s
unfolding drop_spaces
drop_spaces_idem [] = refl
drop_spaces_idem (c ∷ s) = elim (Bool-cases (is_space c)) [
  | inl e ↦ rw e (drop_spaces_idem s)
  | inr e ↦ rw (e, e) refl
]

drop_spaces_of : (c : ℕ) (t : Text) → is_space c ≡ false → drop_spaces (c ∷ t) ≡ c ∷ t
unfolding drop_spaces
drop_spaces_of c t h = rw h refl

trim_of_start :
    (s : Text) (c : ℕ) (t : Text)
    → drop_spaces s ≡ c ∷ t
    → is_space c ≡ false
    → trim_space s ≡ c ∷ reverse (drop_spaces (reverse t))
unfolding trim_space
trim_of_start s c t e h = ap (λ u. reverse (drop_spaces (reverse u))) e ∙ trim_end c t h

pub trim_space_idem : (s : Text) → trim_space (trim_space s) ≡ trim_space s
trim_space_idem s = elim (drop_spaces_cases s) [
  | inl e ↦ unfold trim_space drop_spaces in rw e refl
  | inr (c, t, e, h) ↦
      let first = trim_of_start s c t e h in
      let rest = reverse (drop_spaces (reverse t)) in
      ap trim_space first
      ∙ trim_of_start (c ∷ rest) c rest (drop_spaces_of c rest h) h
      ∙ ap (λ u. c ∷ reverse (drop_spaces u)) (reverse-reverse (drop_spaces (reverse t)))
      ∙ ap (λ u. c ∷ reverse u) (drop_spaces_idem (reverse t))
      ∙ sym first
]

-- A name that normalize_name returns is its own normal form, for the same maximal length.
pub normalize_name_idem :
    (raw : Text) (n : ℕ) {name : Text}
    → normalize_name raw n ≡ ok name
    → normalize_name name n ≡ ok name
unfolding normalize_name
normalize_name_idem raw n h = ground (arith, trim_space_idem raw)

-- A code that normalize_code returns is its own normal form.
pub normalize_code_idem :
    (raw : Text) {code : Text} → normalize_code raw ≡ ok code → normalize_code code ≡ ok code
unfolding normalize_code
normalize_code_idem raw h = ground (arith, trim_space_idem raw)
