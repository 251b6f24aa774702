-- ===== src/Reconciliation/Diff/Located.antt =====
-- LocateManagedChannel and Verify of internal/application/reconciliation/diff.go.
use many_router.Base.{
  true, false, ◌&&◌, List, [], ◌∷◌, length, Text, text_eq, text_eq_iff, ltb, lookup, Option, none,
  some, ok, guard, reject, or_reject, guard-eq-ok, reject-eq-ok, or_reject-eq-ok, >>=-eq-ok,
  ok-injective, some-injective, Bool-cases, if◌then◌else◌, ◌≡◌, refl, sym, ap, ◌∙◌, inl, inr, ◌⊎◌,
  arith,
}
use many_router.Base.Int.{ℤ, eq_ℤ, eq_ℤ_iff}
use many_router.Packages.{DecimalPackage}
use many_router.Routing.Types.{Snapshot, DesiredChannel, DesiredGroup, fields}
use many_router.Reconciliation.Types.{compatibility, ownership, failure, ActualChannel, ActualState}
use many_router.Reconciliation.Diff.{
  tagged, with_id, bound, choose, locate_managed_channel, channel_configuration_matches, same_ratio,
  is_enabled, check_visibility, verify,
}

with_id-cases :
    (id : ℤ) (x : ActualChannel) (channels : List ActualChannel) {c : ActualChannel}
    → with_id id (x ∷ channels) ≡ some c
    → (with_id id channels ≡ some c) ⊎ ((eq_ℤ x.id id ≡ true) × (x ≡ c))
unfolding with_id
with_id-cases id x channels {c} h = of_rest (with_id id channels) refl
  where
    of_rest :
        (o : Option ActualChannel)
        → with_id id channels ≡ o
        → (o ≡ some c) ⊎ ((eq_ℤ x.id id ≡ true) × (x ≡ c))
    of_rest (some d) e = inl (rw e at h)
    of_rest none e =
        let k = rw e at h in
        elim (Bool-cases (eq_ℤ x.id id)) [
          | inl t ↦ inr (t, some-injective (rw t at k))
          | inr t ↦ let j = rw t at k in cc
        ]

no_more : {A : Type 0} (x : A) (xs : List A) → ltb 1 (length (x ∷ xs)) ≡ false → xs ≡ []
no_more x [] h = refl
no_more x (y ∷ xs) h = ground arith

-- The channel that is found by its identifier is the only one with its tag, if no two have it.
with_id-tagged :
    (tag : Text) (id : ℤ) (channels : List ActualChannel) {c : ActualChannel}
    → with_id id channels ≡ some c
    → text_eq c.managed_tag tag ≡ true
    → ltb 1 (length (tagged tag channels)) ≡ false
    → (c.id ≡ id) × (tagged tag channels ≡ c ∷ [])
unfolding tagged with_id
with_id-tagged tag id [] h t one = cc
with_id-tagged tag id (x ∷ channels) {c} h t one = elim (with_id-cases id x channels h) [
  | inl e ↦ elim (Bool-cases (text_eq x.managed_tag tag)) [
    | inl y ↦
        let k = rw y at one in
        let (same, only) =
          with_id-tagged tag id channels e t (ap (λ l. ltb 1 (length l)) (no_more x _ k)) in
        ground (arith, only, no_more x _ k)
    | inr y ↦ let k = rw y at one in rw y (with_id-tagged tag id channels e t k)
  ]
  | inr (e, same) ↦
      let y = ap (λ d. text_eq d.managed_tag tag) same ∙ t in
      let k = rw y at one in
      (ap (λ d. d.id) (sym same) ∙ (eq_ℤ_iff x.id id).0 e, rw (y, no_more x _ k, same) refl)
]

choose-some :
    (tag : Text) (found : Option ActualChannel) (matching : List ActualChannel) {c : ActualChannel}
    → choose tag found matching ≡ ok (some c)
    → ((found ≡ some c) × (text_eq c.managed_tag tag ≡ true))
      ⊎ ((found ≡ none) × (matching ≡ c ∷ []))
unfolding choose
choose-some tag (some d) matching h =
    let (_, own, h1) =
      >>=-eq-ok (guard (text_eq d.managed_tag tag) (failure ownership "binding_mismatch"))
        (λ _. ok (some d)) h in
    let same = some-injective (ok-injective h1) in
    inl (ap some same, ap (λ e. text_eq e.managed_tag tag) (sym same) ∙ guard-eq-ok _ _ own)
choose-some tag none [] h = let k = ok-injective h in cc
choose-some tag none (d ∷ []) h = inr (refl, ap (λ e. e ∷ []) (some-injective (ok-injective h)))
choose-some tag none (d ∷ e ∷ rest) h = let k = ok-injective h in cc

-- The channel that is located for a plan is the only one with the plan's tag, and no other channel has
-- the identifier of the binding.
pub locate_managed_channel-found :
    (expected : DesiredChannel) (binding : Option ℤ) (channels : List ActualChannel)
    {c : ActualChannel}
    → locate_managed_channel expected binding channels ≡ ok (some c)
    → (tagged expected.managed_tag channels ≡ c ∷ [])
      × ((bound binding channels ≡ none) ⊎ (bound binding channels ≡ some c))
unfolding locate_managed_channel bound
locate_managed_channel-found expected binding channels {c} h =
    let matching = tagged expected.managed_tag channels in
    let (_, one, h1) =
      >>=-eq-ok (reject (ltb 1 (length matching)) (failure ownership "managed_resource_conflict")) _
        h in
    elim (choose-some expected.managed_tag (bound binding channels) matching h1) [
      | inl (found, own) ↦
          (by_id binding found own (reject-eq-ok (ltb 1 (length matching)) _ one), inr found)
      | inr (absent, only) ↦ (only, inl absent)
    ]
  where
    by_id :
        (b : Option ℤ)
        → bound b channels ≡ some c
        → text_eq c.managed_tag expected.managed_tag ≡ true
        → ltb 1 (length (tagged expected.managed_tag channels)) ≡ false
        → tagged expected.managed_tag channels ≡ c ∷ []
    by_id none found own one = cc
    by_id (some id) found own one =
        (with_id-tagged expected.managed_tag id channels found own one).1

check_visibility-ok :
    (group : DesiredGroup) (found : Option Text)
    → check_visibility group found ≡ ok tt
    → found ≡ (if group.visible then some group.display_name else none)
unfolding check_visibility
check_visibility-ok group none h = ground (arith, h)
check_visibility-ok group (some t) h =
    let good = guard-eq-ok (group.visible && text_eq t group.display_name) _ h in
    elim (Bool-cases group.visible) [
      | inl e ↦ rw e (ap some ((text_eq_iff t group.display_name).0 (ground arith)))
      | inr e ↦ ground arith
    ]

module _ {D : Type 0} (decimal : DecimalPackage D) where
  -- What a plan asks of New API, and the channel that carries it out.
  pub record IsSynchronized (s : Snapshot) (actual : ActualState) (c : ActualChannel) : Type 0 where
    pub only : tagged (fields s).channel.managed_tag actual.channels ≡ c ∷ []
    pub matching : channel_configuration_matches (fields s).channel c ≡ true
    pub on : is_enabled c.status ≡ true
    pub ratio :
        (raw : Text) × (lookup (fields s).group.key actual.group_ratios ≡ some raw)
        × (same_ratio decimal (fields s).group.sale_ratio raw ≡ true)
    pub visibility :
        lookup (fields s).group.key actual.user_usable_groups
        ≡ (if (fields s).group.visible then some (fields s).group.display_name else none)

  -- Verify accepts only a state in which the plan is carried out, and gives its channel.
  pub verify-IsSynchronized :
      (s : Snapshot) (actual : ActualState) (binding : Option ℤ) {c : ActualChannel}
      → verify decimal s actual binding ≡ ok c
      → IsSynchronized s actual c
  unfolding verify
  verify-IsSynchronized s actual binding h =
      let f = fields s in
      let (located, hl, h1) =
        >>=-eq-ok (locate_managed_channel f.channel binding actual.channels) _ h in
      let (channel, hc, h2) =
        >>=-eq-ok (or_reject located (failure compatibility "channel_missing")) _ h1 in
      let (_, hm, h3) =
        >>=-eq-ok
          (guard (channel_configuration_matches f.channel channel)
            (failure compatibility "channel_drift"))
          _ h2 in
      let (raw, hr, h4) =
        >>=-eq-ok
          (or_reject (lookup f.group.key actual.group_ratios)
            (failure compatibility "group_ratio_missing"))
          _ h3 in
      let (_, hq, h5) =
        >>=-eq-ok
          (guard (same_ratio decimal f.group.sale_ratio raw)
            (failure compatibility "group_ratio_drift"))
          _ h4 in
      let (_, he, h6) =
        >>=-eq-ok (guard (is_enabled channel.status) (failure compatibility "channel_not_enabled"))
          _ h5 in
      let (_, hv, h7) =
        >>=-eq-ok (check_visibility f.group (lookup f.group.key actual.user_usable_groups)) _ h6 in
      rw (sym (ok-injective h7)) (record {
        only =
            (locate_managed_channel-found f.channel binding actual.channels
              (hl ∙ ap ok (or_reject-eq-ok _ _ hc))).0;
        matching = guard-eq-ok _ _ hm;
        on = guard-eq-ok _ _ he;
        ratio = (raw, or_reject-eq-ok _ _ hr, guard-eq-ok _ _ hq);
        visibility = check_visibility-ok f.group _ hv;
      })
