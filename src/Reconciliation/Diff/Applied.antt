-- ===== src/Reconciliation/Diff/Applied.antt =====
-- Applying the maps that diff.go (internal/application/reconciliation) merges makes its checks pass.
use many_router.Base.{
  Bool, true, false, [], ◌∷◌, Text, text_eq, text_eq_refl, is_distinct, All, Map, lookup, keys,
  lookup-entries, Option, none, some, Result, ok, ◌>>=◌, ◌>>◌, guard, or_reject, or_reject-eq-ok,
  >>=-eq-ok, Bool-cases, if◌then◌else◌, ◌≡◌, refl, sym, ap, ◌∙◌, inl, inr, ◌⊎◌, arith,
  some-injective,
}
use many_router.Base.Int.{ℤ}
use many_router.Packages.{DecimalPackage, IsDecimal}
use many_router.Routing.Types.{Snapshot, fields, DesiredGroup}
use many_router.Reconciliation.Types.{
  configuration, compatibility, Failure, failure, ActualChannel, ActualState,
}
use many_router.Reconciliation.Diff.{
  normal_ratio, normal_ratios, positive_ratio, merge_group_ratios, merge_user_usable_groups,
  same_ratio, verify_unmanaged_group_ratios, verify_unmanaged_user_groups, verify,
  locate_managed_channel, channel_configuration_matches, is_enabled, check_visibility,
}
use many_router.Reconciliation.Diff.Groups.{
  normal_at, merge_group_ratios-lookup, merge_user_usable_groups-lookup,
}

-- The entry may stay: it is the managed one, or the same afterwards.
abbrev PassesAt : (same : Text → Text → Bool) (after : Map Text) → Text → Text × Text → Type 0
PassesAt same after managed_group entry =
    (text_eq entry.0 managed_group ≡ true)
    ⊎ ((a : Text) × (lookup entry.0 after ≡ some a) × (same entry.1 a ≡ true))

-- One turn of the loops, where the rest passes.
entry_passes :
    (same : Text → Text → Bool) (entry : Text × Text) (after : Map Text) (managed_group : Text)
    (removed changed : Failure) (rest : Result Failure (Unit {0}))
    → PassesAt same after managed_group entry
    → rest ≡ ok tt
    → (if text_eq entry.0 managed_group
        then rest
        else or_reject (lookup entry.0 after) removed >>= λ a.
            guard (same entry.1 a) changed >> rest)
      ≡ ok tt
entry_passes same entry after managed_group removed changed rest (inl e) h = rw e h
entry_passes same entry after managed_group removed changed rest (inr (a, found, good)) h =
    elim (Bool-cases (text_eq entry.0 managed_group)) [
      | inl e ↦ rw e h
      | inr e ↦ rw (e, found, good) h
    ]

user_groups_pass :
    (before after : Map Text) (managed_group : Text)
    → All (PassesAt (λ b a. text_eq a b) after managed_group) before
    → verify_unmanaged_user_groups before after managed_group ≡ ok tt
unfolding verify_unmanaged_user_groups
user_groups_pass [] after managed_group h = refl
user_groups_pass (entry ∷ before) after managed_group (h, hs) =
    entry_passes (λ b a. text_eq a b) entry after managed_group _ _ _ h
      (user_groups_pass before after managed_group hs)

module _ {D : Type 0} (decimal : DecimalPackage D) where
  open decimal use {from_string, to_string, is_positive, is_negative, equal}

  ratios_pass :
      (before after : Map Text) (managed_group : Text)
      → All (PassesAt (same_ratio decimal) after managed_group) before
      → verify_unmanaged_group_ratios decimal before after managed_group ≡ ok tt
  unfolding verify_unmanaged_group_ratios
  ratios_pass [] after managed_group h = refl
  ratios_pass (entry ∷ before) after managed_group (h, hs) =
      entry_passes (same_ratio decimal) entry after managed_group _ _ _ h
        (ratios_pass before after managed_group hs)

  printed_ratio :
      IsDecimal decimal
      → (raw : Text) {d : D} → from_string raw ≡ some d
      → same_ratio decimal raw (to_string d) ≡ true
  unfolding same_ratio
  printed_ratio laws raw {d} h =
      let (e, read, same, _, _, _, _) = laws.from_string-to_string d in
      rw (h, read) (laws.equal_sym e d same)

  normal_ratio-same :
      IsDecimal decimal
      → (raw : Text) {t : Text} → normal_ratio decimal raw ≡ some t
      → same_ratio decimal raw t ≡ true
  unfolding normal_ratio
  normal_ratio-same laws raw {t} h = of_lookup (from_string raw) refl
    where
      of_lookup : (o : Option D) → from_string raw ≡ o → same_ratio decimal raw t ≡ true
      of_lookup none e = let k = rw e at h in cc
      of_lookup (some d) e =
          let k = rw e at h in
          elim (Bool-cases (is_negative d)) [
            | inl n ↦ let j = rw n at k in cc
            | inr n ↦
                ap (same_ratio decimal raw) (sym (some-injective (rw n at k)))
                ∙ printed_ratio laws raw e
          ]

  positive_ratio-same :
      IsDecimal decimal
      → (raw : Text) {d : D} → positive_ratio decimal raw ≡ some d
      → same_ratio decimal raw (to_string d) ≡ true
  unfolding positive_ratio
  positive_ratio-same laws raw {d} h = printed_ratio laws raw (of_lookup (from_string raw) refl)
    where
      of_lookup : (o : Option D) → from_string raw ≡ o → o ≡ some d
      of_lookup none e = let k = rw e at h in cc
      of_lookup (some r) e = let k = rw e at h in ground arith

  normal_ratios-All :
      IsDecimal decimal
      → (current : Map Text) {merged : Map Text} → normal_ratios decimal current ≡ ok merged
      → All (λ entry. (t : Text) × (normal_ratio decimal entry.1 ≡ some t)) current
  unfolding normal_ratios
  normal_ratios-All laws [] h = tt
  normal_ratios-All laws (entry ∷ current) h =
      let (t, here, h1) =
        >>=-eq-ok
          (or_reject (normal_ratio decimal entry.1) (failure compatibility "invalid_group_ratio")) _
          h in
      let (rest, hrest, _) = >>=-eq-ok (normal_ratios decimal current) _ h1 in
      ((t, or_reject-eq-ok _ _ here), normal_ratios-All laws current hrest)

  ratio_entries_pass :
      IsDecimal decimal
      → (current merged rest : Map Text) (group_key ratio : Text)
      → ((key : Text)
          → lookup key merged ≡ (
              if text_eq key group_key then some ratio else normal_at decimal (lookup key current)))
      → All (λ entry. lookup entry.0 current ≡ some entry.1) rest
      → All (λ entry. (t : Text) × (normal_ratio decimal entry.1 ≡ some t)) rest
      → All (PassesAt (same_ratio decimal) merged group_key) rest
  ratio_entries_pass laws current merged [] group_key ratio found own normal = tt
  ratio_entries_pass laws current merged (entry ∷ rest) group_key ratio found (own, owns)
        ((t, n), ns) =
      (
        elim (Bool-cases (text_eq entry.0 group_key)) [
          | inl e ↦ inl e
          | inr e ↦ inr (t, found entry.0 ∙ rw (e, own, n) refl, normal_ratio-same laws entry.1 n)
        ],
        ratio_entries_pass laws current merged rest group_key ratio found owns ns,
      )

  -- Merged ratios pass the checks: the other groups count as unchanged, and the group of the plan has
  -- the ratio of the plan.
  pub merge_group_ratios-passes :
      IsDecimal decimal
      → (current : Map Text) (group_key expected : Text) {merged : Map Text} {changed : Bool}
      → is_distinct (keys current) ≡ true
      → merge_group_ratios decimal current group_key expected ≡ ok (merged, changed)
      → (verify_unmanaged_group_ratios decimal current merged group_key ≡ ok tt)
        × ((ratio : Text) × (lookup group_key merged ≡ some ratio)
            × (same_ratio decimal expected ratio ≡ true))
  unfolding merge_group_ratios
  merge_group_ratios-passes laws current group_key expected {merged} distinct h =
      let (ratio, positive, found, _) =
        merge_group_ratios-lookup decimal laws current group_key expected h in
      let (_, _, h1) =
        >>=-eq-ok
          (or_reject (positive_ratio decimal expected) (failure configuration "invalid_sale_ratio"))
          _ h in
      let (_, normal, _) = >>=-eq-ok (normal_ratios decimal current) _ h1 in
      (
        ratios_pass current merged group_key (
            ratio_entries_pass laws current merged current group_key (to_string ratio) found
              (lookup-entries current distinct) (normal_ratios-All laws current normal)),
        (
          to_string ratio,
          found group_key ∙ rw (text_eq_refl group_key) refl,
          positive_ratio-same laws expected positive,
        ),
      )

user_entries_pass :
    (current rest : Map Text) (group : DesiredGroup)
    → All (λ entry. lookup entry.0 current ≡ some entry.1) rest
    → All (PassesAt (λ b a. text_eq a b) (merge_user_usable_groups current group).0 group.key) rest
user_entries_pass current [] group own = tt
user_entries_pass current (entry ∷ rest) group (own, owns) = (
  elim (Bool-cases (text_eq entry.0 group.key)) [
    | inl e ↦ inl e
    | inr e ↦ inr (
      entry.1,
      merge_user_usable_groups-lookup current group entry.0 ∙ rw (e, own) refl,
      text_eq_refl entry.1,
    )
  ],
  user_entries_pass current rest group owns,
)

-- Merged user groups pass the checks: the other groups are unchanged, and the group of the plan is
-- selectable under its name, or hidden, as the plan says.
pub merge_user_usable_groups-passes :
    (current : Map Text) (group : DesiredGroup)
    → is_distinct (keys current) ≡ true
    → (verify_unmanaged_user_groups current (merge_user_usable_groups current group).0 group.key
        ≡ ok tt)
      × (check_visibility group (lookup group.key (merge_user_usable_groups current group).0)
          ≡ ok tt)
unfolding check_visibility
merge_user_usable_groups-passes current group distinct = (
  user_groups_pass current (merge_user_usable_groups current group).0 group.key
      (user_entries_pass current current group (lookup-entries current distinct)),
  rw (merge_user_usable_groups-lookup current group group.key, text_eq_refl group.key)
      (by_visibility (Bool-cases group.visible)),
)
  where
    by_visibility :
        (group.visible ≡ true) ⊎ (group.visible ≡ false)
        → check_visibility group (if group.visible then some group.display_name else none) ≡ ok tt
    by_visibility (inl e) = rw (e, text_eq_refl group.display_name) refl
    by_visibility (inr e) = rw e refl

module _ {D : Type 0} (decimal : DecimalPackage D) where
  -- A state that has the ratios and the user groups merged from an earlier state, and an enabled
  -- channel that is found for the plan and matches it, passes the last checks of a synchronization.
  pub verify-applied :
      IsDecimal decimal
      → (s : Snapshot) (before after : ActualState) (binding : Option ℤ) (channel : ActualChannel)
        {changed : Bool}
      → is_distinct (keys before.group_ratios) ≡ true
      → is_distinct (keys before.user_usable_groups) ≡ true
      → merge_group_ratios decimal before.group_ratios
          (fields s).group.key
          (fields s).group.sale_ratio
        ≡ ok (after.group_ratios, changed)
      → after.user_usable_groups
        ≡ (merge_user_usable_groups before.user_usable_groups (fields s).group).0
      → locate_managed_channel (fields s).channel binding after.channels ≡ ok (some channel)
      → channel_configuration_matches (fields s).channel channel ≡ true
      → is_enabled channel.status ≡ true
      → (verify_unmanaged_group_ratios decimal before.group_ratios after.group_ratios
            (fields s).group.key
          ≡ ok tt)
        × (verify_unmanaged_user_groups before.user_usable_groups after.user_usable_groups
              (fields s).group.key
            ≡ ok tt)
        × (verify decimal s after binding ≡ ok channel)
  unfolding verify
  verify-applied laws s before after binding channel ratios groups merged usable located matches
        on =
      let group = (fields s).group in
      let (others, (ratio, found, same)) =
        merge_group_ratios-passes decimal laws before.group_ratios group.key group.sale_ratio ratios
          merged in
      let (other_groups, visible) =
        merge_user_usable_groups-passes before.user_usable_groups group groups in
      (others, rw usable other_groups, rw (located, matches, found, same, on, usable, visible) refl)
