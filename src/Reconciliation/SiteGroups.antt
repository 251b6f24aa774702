-- ===== src/Reconciliation/SiteGroups.antt =====
-- The loops of runSite (internal/application/reconciliation/site_service.go) that merge all groups of
-- a plan into the maps of New API.
use many_router.Base.{Bool, false, ◌||◌, List, [], ◌∷◌, Text, Map, Result, ok, ◌>>=◌}
use many_router.Packages.{DecimalPackage}
use many_router.Routing.Types.{DesiredGroup}
use many_router.Reconciliation.Types.{Failure}
use many_router.Reconciliation.Diff.{merge_group_ratios, merge_user_usable_groups}

unfoldable pub merge_site_user_groups : List DesiredGroup → Map Text → Map Text × Bool
merge_site_user_groups [] current = (current, false)
merge_site_user_groups (group ∷ rest) current =
    let here = merge_user_usable_groups current group in
    let others = merge_site_user_groups rest here.0 in (others.0, here.1 || others.1)

module _ {D : Type 0} (decimal : DecimalPackage D) where
  unfoldable pub merge_site_ratios : List DesiredGroup → Map Text → Result Failure (Map Text × Bool)
  merge_site_ratios [] current = ok (current, false)
  merge_site_ratios (group ∷ rest) current = do
    here ← merge_group_ratios decimal current group.key group.sale_ratio
    others ← merge_site_ratios rest here.0
    ok (others.0, here.1 || others.1)
