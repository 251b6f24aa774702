-- ===== src/Base/Maps.antt =====
-- A Go map with string keys, as an association list. A key that the code can read stands once.
use mathlib.Core.Path.{◌≡◌, refl}
use mathlib.Core.Bool.{Bool, true, false}
use mathlib.Core.Option.{Option, none, some}
use mathlib.Core.List.{List, [], ◌∷◌, map}
use native.Mathlib.Omega.{arith}
use many_router.Base.Tests.{if◌then◌else◌}
use many_router.Base.Lists.{All}
use many_router.Base.Strings.{Text, text_eq, text_eq_iff, contains_text}
use many_router.Base.Sorting.{is_distinct, text_eq_refl}

abbrev pub Map {ℓ} : Type ℓ → Type ℓ
Map V = List (Text × V)

module _ {ℓ} {V : Type ℓ} where
  unfoldable pub lookup : Text → Map V → Option V
  lookup key [] = none
  lookup key (entry ∷ m) =
      let rest = lookup key m in if text_eq key entry.0 then some entry.1 else rest

  -- `m[key] = value`
  unfoldable pub insert : Text → V → Map V → Map V
  insert key value [] = (key, value) ∷ []
  insert key value (entry ∷ m) =
      let rest = insert key value m in
      if text_eq key entry.0 then (key, value) ∷ m else entry ∷ rest

  -- `delete(m, key)`
  unfoldable pub erase : Text → Map V → Map V
  erase key [] = []
  erase key (entry ∷ m) =
      let rest = erase key m in if text_eq key entry.0 then rest else entry ∷ rest

  abbrev pub keys : Map V → List Text
  keys m = map (λ entry. entry.0) m

  abbrev pub is_some : Option V → Bool
  is_some none = false
  is_some (some v) = true

  pub lookup-insert :
      (j k : Text) (v : V) (m : Map V)
      → lookup j (insert k v m) ≡ (if text_eq j k then some v else lookup j m)
  unfolding lookup insert
  lookup-insert j k v [] = refl
  lookup-insert j k v (entry ∷ m) =
      ground (
        arith,
        lookup-insert j k v m,
        text_eq_iff j k,
        text_eq_iff k entry.0,
        text_eq_iff j entry.0,
      )

  pub lookup-erase :
      (j k : Text) (m : Map V) → lookup j (erase k m) ≡ (if text_eq j k then none else lookup j m)
  unfolding lookup erase
  lookup-erase j k [] = ground arith
  lookup-erase j k (entry ∷ m) =
      ground
        (arith, lookup-erase j k m, text_eq_iff j k, text_eq_iff k entry.0, text_eq_iff j entry.0)

  -- A key is found exactly where it is one of the keys.
  pub lookup-keys : (k : Text) (m : Map V) → is_some (lookup k m) ≡ contains_text k (keys m)
  unfolding lookup contains_text
  lookup-keys k [] = refl
  lookup-keys k (entry ∷ m) = ground (arith, lookup-keys k m)

  found_below :
      (key : Text) (value : V) (m rest : Map V)
      → contains_text key (keys rest) ≡ false
      → All (λ entry. lookup entry.0 m ≡ some entry.1) rest
      → All (λ entry. lookup entry.0 ((key, value) ∷ m) ≡ some entry.1) rest
  unfolding lookup contains_text
  found_below key value m [] absent h = tt
  found_below key value m (entry ∷ rest) absent (h, hs) = (
    ground (arith, h, text_eq_iff key entry.0, text_eq_iff entry.0 key),
    found_below key value m rest (ground arith) hs,
  )

  -- Each entry of a map without a repeated key is found under its key.
  pub lookup-entries :
      (m : Map V) → is_distinct (keys m) ≡ true → All (λ entry. lookup entry.0 m ≡ some entry.1) m
  lookup-entries [] h = tt
  lookup-entries ((key, value) ∷ m) h = (
    unfold lookup in rw (text_eq_refl key) refl,
    found_below key value m m (ground arith) (lookup-entries m (ground arith)),
  )
