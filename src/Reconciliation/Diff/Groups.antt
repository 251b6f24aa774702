-- ===== src/Reconciliation/Diff/Groups.antt =====
-- The maps of groups that MergeGroupRatios and MergeUserUsableGroups make, and the checks that the
-- other groups are kept (internal/application/reconciliation/diff.go).
use many_router.Base.{
  Bool, true, false, not, [], ◌∷◌, Text, text_eq, text_eq_iff, Map, lookup, is_some, lookup-insert,
  lookup-erase, Option, none, some, ok, or_reject, or_reject-eq-ok, >>=-eq-ok, ok-injective,
  Bool-cases, if◌then◌else◌, ◌≡◌, refl, sym, ap, ◌∙◌, inl, inr, ◌⊎◌, ◌≢◌,
}
use many_router.Packages.{DecimalPackage, IsDecimal}
use many_router.Routing.Types.{DesiredGroup}
use many_router.Reconciliation.Types.{configuration, compatibility, failure}
use many_router.Reconciliation.Diff.{
  text_at, merge_user_usable_groups, normal_ratio, normal_ratios, positive_ratio,
  merge_group_ratios,
}

-- The user groups after a merge, as a function of the key: the group of the plan is put in or taken
-- out, and the others are kept.
pub merge_user_usable_groups-lookup :
    (current : Map Text) (group : DesiredGroup) (key : Text)
    → lookup key (merge_user_usable_groups current group).0 ≡ (
        if text_eq key group.key
        then if group.visible then some group.display_name else none
        else lookup key current)
unfolding merge_user_usable_groups
merge_user_usable_groups-lookup current group key = elim (Bool-cases group.visible) [
  | inl e ↦ rw e (lookup-insert key group.key group.display_name current)
  | inr e ↦ rw e (lookup-erase key group.key current)
]

-- A key is found with a text that is not empty, or a change of it is reported.
changed_or_found :
    (key s : Text) (m : Map Text)
    → s ≢ []
    → (not (text_eq (text_at key m) s) ≡ true) ⊎ (lookup key m ≡ some s)
unfolding text_at
changed_or_found key s m nonempty = of_lookup (lookup key m) refl
  where
    of_lookup :
        (o : Option Text)
        → lookup key m ≡ o
        → (not (text_eq (text_at key m) s) ≡ true) ⊎ (o ≡ some s)
    of_lookup none e = elim (Bool-cases (text_eq [] s)) [
      | inl t ↦ elim (nonempty (sym ((text_eq_iff [] s).0 t))) [ ]
      | inr t ↦ inl (rw (e, t) refl)
    ]
    of_lookup (some raw) e = elim (Bool-cases (text_eq raw s)) [
      | inl t ↦ inr (ap some ((text_eq_iff raw s).0 t))
      | inr t ↦ inl (rw (e, t) refl)
    ]

unchanged_group :
    (visible : Bool) (key name : Text) (current : Map Text)
    → name ≢ []
    → (if visible then not (text_eq (text_at key current) name) else is_some (lookup key current))
      ≡ false
    → lookup key current ≡ (if visible then some name else none)
unchanged_group true key name current nonempty u =
    elim (changed_or_found key name current nonempty) [ inl t ↦ cc | inr t ↦ t ]
unchanged_group false key name current nonempty u = of_lookup (lookup key current) u
  where
    of_lookup : (o : Option Text) → is_some o ≡ false → o ≡ none
    of_lookup none h = refl
    of_lookup (some t) h = cc

-- Where no change of the user groups is reported, the merged ones are the current ones.
pub merge_user_usable_groups-unchanged :
    (current : Map Text) (group : DesiredGroup)
    → group.display_name ≢ []
    → (merge_user_usable_groups current group).1 ≡ false
    → (key : Text) → lookup key (merge_user_usable_groups current group).0 ≡ lookup key current
unfolding merge_user_usable_groups
merge_user_usable_groups-unchanged current group nonempty unchanged key =
    merge_user_usable_groups-lookup current group key ∙ kept (Bool-cases (text_eq key group.key))
  where
    reported :
        (group.visible ≡ true) ⊎ (group.visible ≡ false)
        → (if group.visible
            then not (text_eq (text_at group.key current) group.display_name)
            else is_some (lookup group.key current))
          ≡ (merge_user_usable_groups current group).1
    reported (inl e) = rw e refl
    reported (inr e) = rw e refl

    kept :
        (text_eq key group.key ≡ true) ⊎ (text_eq key group.key ≡ false)
        → (if text_eq key group.key
            then if group.visible then some group.display_name else none
            else lookup key current)
          ≡ lookup key current
    kept (inl e) = rw e (
        sym (
          unchanged_group group.visible group.key group.display_name current nonempty
            (reported (Bool-cases group.visible) ∙ unchanged))
        ∙ ap (λ k. lookup k current) (sym ((text_eq_iff key group.key).0 e)))
    kept (inr e) = rw e refl

module _ {D : Type 0} (decimal : DecimalPackage D) where
  open decimal use {from_string, to_string, is_positive, is_negative, equal}

  -- The ratio of a group in normal form, where the group has one.
  abbrev pub normal_at : Option Text → Option Text
  normal_at none = none
  normal_at (some raw) = normal_ratio decimal raw

  normal_ratios-lookup :
      (current : Map Text) {merged : Map Text} (key : Text)
      → normal_ratios decimal current ≡ ok merged
      → lookup key merged ≡ normal_at (lookup key current)
  unfolding normal_ratios lookup
  normal_ratios-lookup [] key h = rw (sym (ok-injective h)) refl
  normal_ratios-lookup (entry ∷ current) key h =
      let (ratio, here, h1) =
        >>=-eq-ok
          (or_reject (normal_ratio decimal entry.1) (failure compatibility "invalid_group_ratio")) _
          h in
      let (rest, hrest, h2) = >>=-eq-ok (normal_ratios decimal current) _ h1 in
      let ih = normal_ratios-lookup current key hrest in
      let normal = or_reject-eq-ok (normal_ratio decimal entry.1) _ here in
      rw (sym (ok-injective h2)) (elim (Bool-cases (text_eq key entry.0)) [
        | inl e ↦ rw (e, normal) refl
        | inr e ↦ rw (e, ih) refl
      ])

  -- The ratios after a merge, as a function of the key: the group of the plan has the plan's ratio, and
  -- every other group its own, in normal form. Without a change reported, the group had that ratio.
  pub merge_group_ratios-lookup :
      IsDecimal decimal
      → (current : Map Text) (group_key expected : Text) {merged : Map Text} {changed : Bool}
      → merge_group_ratios decimal current group_key expected ≡ ok (merged, changed)
      → (ratio : D) × (positive_ratio decimal expected ≡ some ratio)
        × ((key : Text)
            → lookup key merged ≡ (
                if text_eq key group_key
                then some (to_string ratio)
                else normal_at (lookup key current)))
        × ((changed ≡ true) ⊎ (normal_at (lookup group_key current) ≡ some (to_string ratio)))
  unfolding merge_group_ratios text_at
  merge_group_ratios-lookup laws current group_key expected h =
      let (ratio, positive, h1) =
        >>=-eq-ok
          (or_reject (positive_ratio decimal expected) (failure configuration "invalid_sale_ratio"))
          _ h in
      let (normal, hn, h2) = >>=-eq-ok (normal_ratios decimal current) _ h1 in
      let same = ok-injective h2 in
      let before = normal_ratios-lookup current group_key hn in
      (
        ratio,
        or_reject-eq-ok _ _ positive,
        λ key.
            ap (lookup key) (ap (λ p. p.0) (sym same))
            ∙ lookup-insert key group_key (to_string ratio) normal
            ∙ ap (λ o. if text_eq key group_key then some (to_string ratio) else o)
                (normal_ratios-lookup current key hn),
        elim (changed_or_found group_key (to_string ratio) normal (laws.to_string-ne_nil ratio)) [
          | inl t ↦ inl (ap (λ p. p.1) (sym same) ∙ t)
          | inr t ↦ inr (sym before ∙ t)
        ],
      )
