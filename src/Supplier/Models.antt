-- ===== src/Supplier/Models.antt =====
-- The models that normalizeModels gives (internal/domain/supplier/supplier.go).
use many_router.Base.{
  true, false, List, [], ◌∷◌, map, Text, trim_space, contains_text, contains_any, is_empty, ltb,
  byte_len, map-sort_by, is_distinct, avoid_texts, IsAscending, sort-IsAscending, All, All-sort_by,
  ok, reject, reject-eq-ok, >>=-eq-ok, ok-injective, ◌≡◌, refl, sym, ap, ◌∙◌, Time,
}
use many_router.Packages.{DecimalPackage}
use many_router.Values.Laws.{trim_space_idem}
use many_router.Supplier.{
  Model, ModelInput, normalize_model_name, normalize_model, normalize_currency, check_prices,
  collect_models, normalize_models, line_breaks, name_less,
}

-- A name without surrounding space, commas and line breaks.
pub record IsModelName (s : Text) : Type 0 where
  pub trimmed : trim_space s ≡ s
  pub nonempty : is_empty s ≡ false
  pub one_line : contains_any s line_breaks ≡ false

pub normalize_model_name-IsModelName :
    (raw : Text) {s : Text} → normalize_model_name raw ≡ ok s → IsModelName s
unfolding normalize_model_name
normalize_model_name-IsModelName raw h =
    let name = trim_space raw in
    let (_, some_name, h1) = >>=-eq-ok (reject (is_empty name) "name is required") _ h in
    let (_, _, h2) =
      >>=-eq-ok (reject (ltb 191 (byte_len name)) "name must not exceed 191 bytes") _ h1 in
    let (_, line, h3) =
      >>=-eq-ok
        (reject (contains_any name line_breaks) "name must not contain commas or line breaks") _
        h2 in
    let same = ok-injective h3 in
    record {
      trimmed = ap trim_space (sym same) ∙ (trim_space_idem raw ∙ same);
      nonempty = ap is_empty (sym same) ∙ reject-eq-ok _ _ some_name;
      one_line = ap (λ t. contains_any t line_breaks) (sym same) ∙ reject-eq-ok _ _ line;
    }

pub record IsModel {D : Type 0} (m : Model D) : Type 0 where
  pub name : IsModelName m.name
  pub upstream_name : IsModelName m.upstream_name

module _ {D : Type 0} (decimal : DecimalPackage D) where
  normalize_model-IsModel :
      (seen : List Text) (input : ModelInput D) (now : Time) {m : Model D}
      → normalize_model decimal seen input now ≡ ok m
      → IsModel m × (contains_text m.name seen ≡ false)
  unfolding normalize_model
  normalize_model-IsModel seen input now h =
      let (name, hn, h1) = >>=-eq-ok (normalize_model_name input.name) _ h in
      let (upstream, hu, h2) = >>=-eq-ok (normalize_model_name input.upstream_name) _ h1 in
      let (_, fresh, h3) = >>=-eq-ok (reject (contains_text name seen) "duplicate model") _ h2 in
      let (_, _, h4) = >>=-eq-ok (check_prices decimal input) _ h3 in
      let (_, _, h5) = >>=-eq-ok (normalize_currency input.currency) _ h4 in
      let same = ok-injective h5 in
      let good = normalize_model_name-IsModelName input.name hn in
      let good_upstream = normalize_model_name-IsModelName input.upstream_name hu in
      (
        rw (sym same) (record { name = good; upstream_name = good_upstream }),
        rw (sym same) (reject-eq-ok _ _ fresh),
      )

module _ {D : Type 0} (decimal : DecimalPackage D) where
  collect_models-IsModel :
      (seen : List Text) (inputs : List (ModelInput D)) (now : Time) {ms : List (Model D)}
      → collect_models decimal seen inputs now ≡ ok ms
      → All IsModel ms
        × (is_distinct (map (λ m. m.name) ms) ≡ true)
        × All (λ n. contains_text n seen ≡ false) (map (λ m. m.name) ms)
  unfolding collect_models
  collect_models-IsModel seen [] now h = rw (sym (ok-injective h)) (tt, refl, tt)
  collect_models-IsModel seen (input ∷ inputs) now h =
      let (m, hm, h1) = >>=-eq-ok (normalize_model decimal seen input now) _ h in
      let (rest, hrest, h2) = >>=-eq-ok (collect_models decimal (m.name ∷ seen) inputs now) _ h1 in
      let (good, fresh) = normalize_model-IsModel decimal seen input now hm in
      let (goods, distinct, others) = collect_models-IsModel (m.name ∷ seen) inputs now hrest in
      let (avoid, new_name) = avoid_texts m.name seen (map (λ m. m.name) rest) others in
      rw (sym (ok-injective h2)) ((good, goods), rw (new_name, distinct) refl, (fresh, avoid))

  -- normalizeModels gives models with trimmed names, none twice, in ascending order of their names.
  pub normalize_models-IsModel :
      (inputs : List (ModelInput D)) (now : Time) {ms : List (Model D)}
      → normalize_models decimal inputs now ≡ ok ms
      → All IsModel ms × IsAscending (map (λ m. m.name) ms)
  unfolding normalize_models
  normalize_models-IsModel inputs now h =
      let (_, _, h1) =
        >>=-eq-ok (reject (is_empty inputs) "at least one supplier model is required") _ h in
      let (ms, hms, h2) = >>=-eq-ok (collect_models decimal [] inputs now) _ h1 in
      let (goods, distinct, _) = collect_models-IsModel [] inputs now hms in
      rw (sym (ok-injective h2)) (
        All-sort_by (name_less decimal) IsModel ms goods,
        rw (map-sort_by (λ m. m.name) ms) (sort-IsAscending _ distinct),
      )
