-- ===== src/Base/Sets.antt =====
-- Sets of strings and of identifiers that a loop of the code fills to find duplicates.
use mathlib.Core.Path.{◌≡◌, refl}
use mathlib.Core.Bool.{false}
use mathlib.Core.List.{List, [], ◌∷◌}
use native.Mathlib.Omega.{arith}
use Prim.Native.Nat.{ℕ}
use many_router.Base.Lists.{All}
use many_router.Base.Strings.{Text, text_eq_iff, contains_text, member}

-- No number stands twice.
abbrev pub IsUnique : List ℕ → Type 0
IsUnique [] = Unit
IsUnique (id ∷ ids) = (member id ids ≡ false) × IsUnique ids

-- Numbers that avoid `n ∷ seen` avoid `seen`, and `n` is not among them.
pub avoid_members :
    (n : ℕ) (seen ids : List ℕ)
    → All (λ t. member t (n ∷ seen) ≡ false) ids
    → All (λ t. member t seen ≡ false) ids × (member n ids ≡ false)
unfolding member
avoid_members n seen [] h = (tt, refl)
avoid_members n seen (t ∷ ids) (h, hs) =
    let (rest, none_here) = avoid_members n seen ids hs in ((ground arith, rest), ground arith)

-- The same of texts.
pub avoid_texts :
    (n : Text) (seen ns : List Text)
    → All (λ t. contains_text t (n ∷ seen) ≡ false) ns
    → All (λ t. contains_text t seen ≡ false) ns × (contains_text n ns ≡ false)
unfolding contains_text
avoid_texts n seen [] h = (tt, refl)
avoid_texts n seen (t ∷ ns) (h, hs) =
    let (rest, none_here) = avoid_texts n seen ns hs in
    ((ground arith, rest), ground (arith, text_eq_iff n t, text_eq_iff t n))
