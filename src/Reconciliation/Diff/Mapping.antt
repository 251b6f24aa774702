-- ===== src/Reconciliation/Diff/Mapping.antt =====
-- mapsEqual of internal/application/reconciliation/diff.go.
use many_router.Base.{
  true, false, [], ◌∷◌, length, Text, text_eq, text_eq_iff, text_eq_refl, contains_text,
  is_distinct, is_empty, All, Map, lookup, erase, keys, is_some, lookup-erase, lookup-keys,
  lookup-entries, Option, none, some, Bool-cases, ◌≡◌, refl, sym, ap, ◌∙◌, inl, inr, ◌↔◌, ==_iff,
  suc, arith,
}
use many_router.Reconciliation.Diff.{text_at, agree, maps_equal}

abbrev pub HasValues : Map Text → Type 0
HasValues m = All (λ entry. is_empty entry.1 ≡ false) m

erase_absent : (k : Text) (m : Map Text) → contains_text k (keys m) ≡ false → erase k m ≡ m
unfolding erase contains_text
erase_absent k [] h = refl
erase_absent k (entry ∷ m) h = ground (arith, erase_absent k m)

length-erase :
    (k : Text) (m : Map Text)
    → is_distinct (keys m) ≡ true
    → contains_text k (keys m) ≡ true
    → suc (length (erase k m)) ≡ length m
unfolding erase contains_text
length-erase k [] d h = cc
length-erase k (entry ∷ m) d h =
    ground (arith, length-erase k m, erase_absent k m, text_eq_iff k entry.0)

contains-erase :
    (j k : Text) (m : Map Text)
    → contains_text j (keys m) ≡ false
    → contains_text j (keys (erase k m)) ≡ false
unfolding erase contains_text
contains-erase j k [] h = refl
contains-erase j k (entry ∷ m) h = ground (arith, contains-erase j k m)

distinct-erase :
    (k : Text) (m : Map Text) → is_distinct (keys m) ≡ true → is_distinct (keys (erase k m)) ≡ true
unfolding erase
distinct-erase k [] d = refl
distinct-erase k (entry ∷ m) d = ground (arith, distinct-erase k m, contains-erase entry.0 k m)

-- Entries with other keys agree with a map without the key.
agree-erase :
    (k : Text) (left right : Map Text)
    → contains_text k (keys left) ≡ false
    → agree left right ≡ agree left (erase k right)
unfolding agree text_at contains_text
agree-erase k [] right h = refl
agree-erase k (entry ∷ left) right h =
    rw (lookup-erase entry.0 k right)
      (ground (arith, agree-erase k left right, text_eq_iff entry.0 k, text_eq_iff k entry.0))

text_at-found :
    (k s : Text) (m : Map Text)
    → text_eq (text_at k m) s ≡ true
    → is_empty s ≡ false
    → lookup k m ≡ some s
unfolding text_at
text_at-found k s m h nonempty = of_lookup (lookup k m) refl
  where
    of_lookup : (o : Option Text) → lookup k m ≡ o → o ≡ some s
    of_lookup none e =
        let j = rw e at h in
        let empty = (text_eq_iff [] s).0 j in let full = ap is_empty empty ∙ nonempty in cc
    of_lookup (some t) e = ap some ((text_eq_iff t s).0 (rw e at h))

found-contains :
    (k : Text) (m : Map Text) {s : Text} → lookup k m ≡ some s → contains_text k (keys m) ≡ true
found-contains k m h = sym (lookup-keys k m) ∙ ap is_some h

-- Equal maps, by the test, have the same value at each key.
pub maps_equal-lookup :
    (left right : Map Text) (key : Text)
    → HasValues left
    → is_distinct (keys left) ≡ true
    → is_distinct (keys right) ≡ true
    → length left ≡ length right
    → agree left right ≡ true
    → lookup key left ≡ lookup key right
unfolding agree lookup
maps_equal-lookup [] [] key v d e n h = refl
maps_equal-lookup [] (entry ∷ right) key v d e n h = ground arith
maps_equal-lookup (entry ∷ left) right key (v, vs) d e n h =
    let found = text_at-found entry.0 entry.1 right (ground arith) v in
    let ih =
      maps_equal-lookup left (erase entry.0 right) key vs (ground arith)
        (distinct-erase entry.0 right e)
        (ground (arith, length-erase entry.0 right e (found-contains entry.0 right found)))
        (sym (agree-erase entry.0 left right (ground arith)) ∙ ground arith) in
    elim (Bool-cases (text_eq key entry.0)) [
      | inl t ↦ rw t (sym found ∙ ap (λ k. lookup k right) (sym ((text_eq_iff key entry.0).0 t)))
      | inr t ↦ rw t (ih ∙ lookup-erase key entry.0 right ∙ rw t refl)
    ]

agree_found :
    (left right : Map Text)
    → All (λ entry. lookup entry.0 right ≡ some entry.1) left
    → agree left right ≡ true
unfolding agree text_at
agree_found [] right h = refl
agree_found (entry ∷ left) right (h, hs) = rw (h, text_eq_refl entry.1) (agree_found left right hs)

All-same :
    (left right rest : Map Text)
    → ((key : Text) → lookup key left ≡ lookup key right)
    → All (λ entry. lookup entry.0 left ≡ some entry.1) rest
    → All (λ entry. lookup entry.0 right ≡ some entry.1) rest
All-same left right [] same h = tt
All-same left right (entry ∷ rest) same (h, hs) =
    (sym (same entry.0) ∙ h, All-same left right rest same hs)

lookup_absent : (k : Text) (m : Map Text) → contains_text k (keys m) ≡ false → lookup k m ≡ none
lookup_absent k m h = of_lookup (lookup k m) (lookup-keys k m ∙ h)
  where
    of_lookup : (o : Option Text) → is_some o ≡ false → o ≡ none
    of_lookup none e = refl
    of_lookup (some t) e = cc

found_first :
    (entry : Text × Text) (left right : Map Text)
    → lookup entry.0 (entry ∷ left) ≡ lookup entry.0 right
    → lookup entry.0 right ≡ some entry.1
unfolding lookup
found_first entry left right same = sym same ∙ rw (text_eq_refl entry.0) refl

-- Maps with the same value at each key have as many entries.
same_length :
    (left right : Map Text)
    → is_distinct (keys left) ≡ true
    → is_distinct (keys right) ≡ true
    → ((key : Text) → lookup key left ≡ lookup key right)
    → length left ≡ length right
unfolding lookup
same_length [] [] d e same = refl
same_length [] (entry ∷ right) d e same =
    let found = same entry.0 in let own = text_eq_refl entry.0 in let bad = rw own at found in cc
same_length (entry ∷ left) right d e same =
    let found = found_first entry left right (same entry.0) in
    let ih =
      same_length left (erase entry.0 right) (ground arith) (distinct-erase entry.0 right e) (λ key.
        elim (Bool-cases (text_eq key entry.0)) [
          | inl t ↦
              ap (λ k. lookup k left) ((text_eq_iff key entry.0).0 t)
              ∙ lookup_absent entry.0 left (ground arith)
              ∙ sym (lookup-erase key entry.0 right ∙ rw t refl)
          | inr t ↦ sym (lookup-erase key entry.0 right ∙ rw t (sym (same key) ∙ rw t refl))
        ]) in
    ground (arith, ih, length-erase entry.0 right e (found-contains entry.0 right found))

-- The test on two model mappings, of which the first has no empty names, holds exactly where they
-- are the same map.
pub maps_equal_iff :
    (left right : Map Text)
    → HasValues left
    → is_distinct (keys left) ≡ true
    → is_distinct (keys right) ≡ true
    → (maps_equal left right ≡ true) ↔ ((key : Text) → lookup key left ≡ lookup key right)
unfolding maps_equal
maps_equal_iff left right v d e = (
  λ h key.
      maps_equal-lookup left right key v d e (ground (arith, ==_iff (length left) (length right)))
        (ground arith),
  λ same.
      let lengths = same_length left right d e same in
      let agreeing =
        agree_found left right (All-same left right left same (lookup-entries left d)) in
      ground (arith, ==_iff (length left) (length right)),
)
