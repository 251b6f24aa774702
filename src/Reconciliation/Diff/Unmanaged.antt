-- ===== src/Reconciliation/Diff/Unmanaged.antt =====
-- VerifyUnmanagedGroupRatios and VerifyUnmanagedUserGroups of
-- internal/application/reconciliation/diff.go.
use many_router.Base.{
  Bool, true, false, [], ◌∷◌, Text, text_eq, text_eq_iff, Map, lookup, none, some, Result, ok,
  ◌>>=◌, ◌>>◌, guard, or_reject, guard-eq-ok, or_reject-eq-ok, >>=-eq-ok, Bool-cases, if◌then◌else◌,
  ◌≡◌, refl, ap, ◌∙◌, inl, inr, ◌⊎◌, arith,
}
use many_router.Packages.{DecimalPackage}
use many_router.Reconciliation.Types.{ownership, Failure, failure}
use many_router.Reconciliation.Diff.{
  same_ratio, verify_unmanaged_group_ratios, verify_unmanaged_user_groups,
}

-- The value of a key before, where there is one, is still there: as the same value.
abbrev pub IsKeptAt : (same : Text → Text → Bool) (before after : Map Text) → Text → Type 0
IsKeptAt same before after key =
    (lookup key before ≡ none)
    ⊎ ((b : Text) × (a : Text) × (lookup key before ≡ some b)
        × (lookup key after ≡ some a)
        × (same b a ≡ true))

-- A check of both maps at the keys of the first.
IsKeptAt-entry :
    (same : Text → Text → Bool) (entry : Text × Text) (before after : Map Text) (key a : Text)
    → lookup entry.0 after ≡ some a
    → same entry.1 a ≡ true
    → IsKeptAt same before after key
    → IsKeptAt same (entry ∷ before) after key
unfolding lookup
IsKeptAt-entry same entry before after key a found good rest =
    elim (Bool-cases (text_eq key entry.0)) [
      | inl e ↦ inr (
        entry.1,
        a,
        rw e refl,
        ap (λ k. lookup k after) ((text_eq_iff key entry.0).0 e) ∙ found,
        good,
      )
      | inr e ↦ rw e rest
    ]

kept_past_managed :
    (same : Text → Text → Bool) (entry : Text × Text) (before after : Map Text)
    (managed_group key : Text)
    → text_eq entry.0 managed_group ≡ true
    → text_eq key managed_group ≡ false
    → IsKeptAt same before after key
    → IsKeptAt same (entry ∷ before) after key
unfolding lookup
kept_past_managed same entry before after managed_group key managed other rest =
    elim (Bool-cases (text_eq key entry.0)) [
      | inl e ↦ ground (
        arith,
        text_eq_iff key entry.0,
        text_eq_iff entry.0 managed_group,
        text_eq_iff key managed_group,
      )
      | inr e ↦ rw e rest
    ]

-- One turn of the loops.
entry_kept :
    (same : Text → Text → Bool) (entry : Text × Text) (before after : Map Text)
    (managed_group key : Text) (removed changed : Failure) (rest : Result Failure (Unit {0}))
    → (if text_eq entry.0 managed_group
        then rest
        else or_reject (lookup entry.0 after) removed >>= λ a.
            guard (same entry.1 a) changed >> rest)
      ≡ ok tt
    → text_eq key managed_group ≡ false
    → (rest ≡ ok tt → IsKeptAt same before after key)
    → IsKeptAt same (entry ∷ before) after key
entry_kept same entry before after managed_group key removed changed rest h other ih =
    elim (Bool-cases (text_eq entry.0 managed_group)) [
      | inl e ↦ kept_past_managed same entry before after managed_group key e other (ih (past e))
      | inr e ↦
          let (a, here, h1) =
            >>=-eq-ok (or_reject (lookup entry.0 after) removed)
              (λ a. guard (same entry.1 a) changed >> rest) (checked e) in
          let (_, good, h2) = >>=-eq-ok (guard (same entry.1 a) changed) (λ _. rest) h1 in
          IsKeptAt-entry same entry before after key a (or_reject-eq-ok _ _ here)
            (guard-eq-ok _ _ good) (ih h2)
    ]
  where
    past : text_eq entry.0 managed_group ≡ true → rest ≡ ok tt
    past e = rw e at h

    checked :
        text_eq entry.0 managed_group ≡ false
        → (or_reject (lookup entry.0 after) removed >>= λ a. guard (same entry.1 a) changed >> rest)
          ≡ ok tt
    checked e = rw e at h

module _ {D : Type 0} (decimal : DecimalPackage D) where
  -- The check lets pass only ratios that agree as decimals outside the managed group.
  pub verify_unmanaged_group_ratios-IsKeptAt :
      (before after : Map Text) (managed_group key : Text)
      → verify_unmanaged_group_ratios decimal before after managed_group ≡ ok tt
      → text_eq key managed_group ≡ false
      → IsKeptAt (same_ratio decimal) before after key
  unfolding verify_unmanaged_group_ratios lookup
  verify_unmanaged_group_ratios-IsKeptAt [] after managed_group key h other = inl refl
  verify_unmanaged_group_ratios-IsKeptAt (entry ∷ before) after managed_group key h other =
      entry_kept (same_ratio decimal) entry before after managed_group key
        (failure ownership "unmanaged_group_removed") (failure ownership "unmanaged_group_changed")
        _ h other
        (λ rest. verify_unmanaged_group_ratios-IsKeptAt before after managed_group key rest other)

-- The check lets pass only user groups that are the same outside the managed group.
pub verify_unmanaged_user_groups-IsKeptAt :
    (before after : Map Text) (managed_group key : Text)
    → verify_unmanaged_user_groups before after managed_group ≡ ok tt
    → text_eq key managed_group ≡ false
    → IsKeptAt (λ b a. text_eq a b) before after key
unfolding verify_unmanaged_user_groups lookup
verify_unmanaged_user_groups-IsKeptAt [] after managed_group key h other = inl refl
verify_unmanaged_user_groups-IsKeptAt (entry ∷ before) after managed_group key h other =
    entry_kept (λ b a. text_eq a b) entry before after managed_group key
      (failure ownership "unmanaged_user_group_removed")
      (failure ownership "unmanaged_user_group_changed") _ h other
      (λ rest. verify_unmanaged_user_groups-IsKeptAt before after managed_group key rest other)
