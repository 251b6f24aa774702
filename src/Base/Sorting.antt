-- ===== src/Base/Sorting.antt =====
-- The package sort: lists put in the order of a test, with the laws for the order of strings.
use mathlib.Core.Path.{◌≡◌, refl, ap, ◌∙◌}
use mathlib.Core.Logic.{inl, inr}
use mathlib.Core.Bool.{Bool, true, false, ◌||◌}
use mathlib.Core.List.{List, [], ◌∷◌, map}
use native.Mathlib.Omega.{arith}
use many_router.Base.Tests.{if◌then◌else◌, Bool-cases}
use many_router.Base.Lists.{All}
use many_router.Base.Strings.{
  Text, text_eq, text_lt, text_lt_trans, text_eq_iff, text_lt_irrefl, contains_text,
}

module _ {ℓ} {A : Type ℓ} (less : A → A → Bool) where
  unfoldable pub insert_by : A → List A → List A
  insert_by x [] = x ∷ []
  insert_by x (y ∷ ys) = let rest = insert_by x ys in if less y x then y ∷ rest else x ∷ y ∷ ys

  -- sort.Slice, on elements that differ, where every sort gives the same list.
  unfoldable pub sort_by : List A → List A
  sort_by [] = []
  sort_by (x ∷ xs) = insert_by x (sort_by xs)

-- Strictly ascending strings.
abbrev pub IsAscending : List Text → Type 0
IsAscending [] = Unit
IsAscending (s ∷ ss) = All (λ t. text_lt s t ≡ true) ss × IsAscending ss

-- No string twice.
abbrev pub is_distinct : List Text → Bool
is_distinct [] = true
is_distinct (s ∷ ss) = if contains_text s ss then false else is_distinct ss

pub text_eq_refl : (s : Text) → text_eq s s ≡ true
text_eq_refl s = (text_eq_iff s s).1 refl

-- Two strings that are not in either order are equal.
pub text_lt_total : (s t : Text) → text_eq s t ≡ false → text_lt s t ≡ false → text_lt t s ≡ true
unfolding text_lt text_eq
text_lt_total [] [] h k = cc
text_lt_total [] (b ∷ t) h k = cc
text_lt_total (a ∷ s) [] h k = refl
text_lt_total (a ∷ s) (b ∷ t) h k = ground (arith, text_lt_total s t)

pub contains_text-insert :
    (r s : Text) (ss : List Text)
    → contains_text r (insert_by text_lt s ss) ≡ (text_eq r s || contains_text r ss)
unfolding insert_by contains_text
contains_text-insert r s [] = refl
contains_text-insert r s (t ∷ ts) = ground (arith, contains_text-insert r s ts)

pub contains_text-sort :
    (r : Text) (ss : List Text) → contains_text r (sort_by text_lt ss) ≡ contains_text r ss
unfolding sort_by contains_text
contains_text-sort r [] = refl
contains_text-sort r (s ∷ ss) =
    rw (contains_text-insert r s (sort_by text_lt ss), contains_text-sort r ss) refl

below_insert :
    (r s : Text) (ss : List Text)
    → text_lt r s ≡ true
    → All (λ t. text_lt r t ≡ true) ss
    → All (λ t. text_lt r t ≡ true) (insert_by text_lt s ss)
unfolding insert_by
below_insert r s [] h k = (h, tt)
below_insert r s (t ∷ ts) h (k, ks) = ground (arith, below_insert r s ts h ks)

below_trans :
    (r s : Text) (ss : List Text)
    → text_lt r s ≡ true
    → All (λ t. text_lt s t ≡ true) ss
    → All (λ t. text_lt r t ≡ true) ss
below_trans r s [] h k = tt
below_trans r s (t ∷ ts) h (k, ks) = (text_lt_trans r s t h k, below_trans r s ts h ks)

insert-IsAscending :
    (s : Text) (ss : List Text)
    → IsAscending ss
    → contains_text s ss ≡ false
    → IsAscending (insert_by text_lt s ss)
unfolding insert_by contains_text
insert-IsAscending s [] h k = (tt, tt)
insert-IsAscending s (t ∷ ts) (h, hs) k = ground (
  arith,
  insert-IsAscending s ts hs,
  below_insert t s ts,
  below_trans s t ts,
  text_lt_total t s,
  text_eq_iff s t,
  text_eq_iff t s,
)

-- Distinct strings are put in strictly ascending order.
pub sort-IsAscending : (ss : List Text) → is_distinct ss ≡ true → IsAscending (sort_by text_lt ss)
unfolding sort_by
sort-IsAscending [] h = tt
sort-IsAscending (s ∷ ss) h =
    ground (
      arith,
      sort-IsAscending ss,
      insert-IsAscending s (sort_by text_lt ss),
      contains_text-sort s ss,
    )

not_below_itself :
    (s : Text) (ss : List Text) → All (λ t. text_lt s t ≡ true) ss → contains_text s ss ≡ false
unfolding contains_text
not_below_itself s [] h = refl
not_below_itself s (t ∷ ss) (h, hs) =
    ground (arith, not_below_itself s ss hs, text_eq_iff s t, text_lt_irrefl s)

-- No string stands twice in a strictly ascending list.
pub ascending-is_distinct : (ss : List Text) → IsAscending ss → is_distinct ss ≡ true
ascending-is_distinct [] h = refl
ascending-is_distinct (s ∷ ss) (h, hs) = rw (not_below_itself s ss h) (ascending-is_distinct ss hs)

module _ {ℓ} {A : Type ℓ} (f : A → Text) where
  -- Sorting by a text that belongs to each element sorts these texts.
  map-insert_by :
      (x : A) (ys : List A)
      → map f (insert_by (λ a b. text_lt (f a) (f b)) x ys) ≡ insert_by text_lt (f x) (map f ys)
  unfolding insert_by
  map-insert_by x [] = refl
  map-insert_by x (y ∷ ys) = elim (Bool-cases (text_lt (f y) (f x))) [
    | inl e ↦ rw (e, map-insert_by x ys) refl
    | inr e ↦ rw e refl
  ]

  pub map-sort_by :
      (xs : List A) → map f (sort_by (λ a b. text_lt (f a) (f b)) xs) ≡ sort_by text_lt (map f xs)
  unfolding sort_by
  map-sort_by [] = refl
  map-sort_by (x ∷ xs) =
      map-insert_by x (sort_by (λ a b. text_lt (f a) (f b)) xs)
      ∙ ap (insert_by text_lt (f x)) (map-sort_by xs)

module _ {ℓ κ} {A : Type ℓ} (less : A → A → Bool) (P : A → Type κ) where
  All-insert_by : (x : A) (ys : List A) → P x → All P ys → All P (insert_by less x ys)
  unfolding insert_by
  All-insert_by x [] p ps = (p, tt)
  All-insert_by x (y ∷ ys) p (q, qs) = elim (Bool-cases (less y x)) [
    | inl e ↦ rw e (q, All-insert_by x ys p qs)
    | inr e ↦ rw e (p, (q, qs))
  ]

  pub All-sort_by : (xs : List A) → All P xs → All P (sort_by less xs)
  unfolding sort_by
  All-sort_by [] ps = tt
  All-sort_by (x ∷ xs) (p, ps) = All-insert_by x (sort_by less xs) p (All-sort_by xs ps)
