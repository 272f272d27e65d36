-- ===== src/Tests/Rows.antt =====
-- data/ at concrete rows.
use jepa_btc_forecasting.Prelude.{
  ℕ, ◌+◌, ◌≤◌, ◌≡◌, refl, true, false, List, [], ◌∷◌, map, arith, ok, All, length, filter, leb,
}
use jepa_btc_forecasting.Prelude.Float.{whole}
use jepa_btc_forecasting.Data.Cv.{Row, Indexed, cpcv_splits}
use jepa_btc_forecasting.Data.Cv.Purge.{IsPurged, cpcv_splits-IsPurged}
use jepa_btc_forecasting.Data.Uniqueness.{
  LookbackCap, concurrency_uniqueness, apply_lookback_cap, validated_lookbacks, zip, has_duplicate,
  max_of,
}
use jepa_btc_forecasting.Data.Uniqueness.Covering.{covering, concurrency_uniqueness_lem}
use jepa_btc_forecasting.Data.Uniqueness.Lookback.{apply_lookback_cap_lem}

abbrev row : ℕ → ℕ → Row
row a b = record { t_event = a; t0 = a; t1 = b }

abbrev rows : List Row
rows = row 1 4 ∷ row 3 6 ∷ row 20 25 ∷ row 40 44 ∷ []

cpcv_splits-IsPurged_example :
    (splits : List (List Indexed × List Indexed)) × (cpcv_splits rows 4 2 5 ≡ ok splits)
    × All (IsPurged 5) splits
cpcv_splits-IsPurged_example =
    cpcv_splits-IsPurged rows 4 2 5 (omega arith) (omega arith) (omega arith) (omega arith)
      (omega arith, (omega arith, (omega arith, (omega arith, tt))))

concurrency_uniqueness_example :
    (concurrency_uniqueness whole (3 ∷ 1 ∷ 20 ∷ []) (6 ∷ 4 ∷ 25 ∷ [])
      ≡ ok (
          map
            (λ t.
              whole.div
                (whole.of_ℕ 1)
                (whole.of_ℕ (covering (3 ∷ 1 ∷ 20 ∷ []) (6 ∷ 4 ∷ 25 ∷ []) t)))
            (3 ∷ 1 ∷ 20 ∷ [])))
    × All (λ t. 1 ≤ covering (3 ∷ 1 ∷ 20 ∷ []) (6 ∷ 4 ∷ 25 ∷ []) t) (3 ∷ 1 ∷ 20 ∷ [])
concurrency_uniqueness_example =
    concurrency_uniqueness_lem whole (3 ∷ 1 ∷ 20 ∷ []) (6 ∷ 4 ∷ 25 ∷ []) refl (unfold zip in refl)
      (unfold has_duplicate in refl)

abbrev cap : LookbackCap
cap = record {
  keep = true ∷ false ∷ true ∷ [];
  n_dropped = 1;
  cap_ns = 5;
  retained_max_lookback_ns = 4;
}

apply_lookback_cap_example :
    (cap.keep ≡ map (λ x. leb x 5) (3 ∷ 9 ∷ 4 ∷ []))
    × All (λ x. x ≤ cap.retained_max_lookback_ns) (filter (λ x. leb x 5) (3 ∷ 9 ∷ 4 ∷ []))
    × (cap.retained_max_lookback_ns ≤ 5)
    × (cap.n_dropped + length (filter (λ x. leb x 5) (3 ∷ 9 ∷ 4 ∷ []))
        ≡ length {A = ℕ} (3 ∷ 9 ∷ 4 ∷ []))
apply_lookback_cap_example =
    apply_lookback_cap_lem (10 ∷ 20 ∷ 30 ∷ []) (7 ∷ 11 ∷ 26 ∷ []) 5 (3 ∷ 9 ∷ 4 ∷ []) cap
      (unfold validated_lookbacks zip in refl)
      (unfold apply_lookback_cap validated_lookbacks zip max_of in refl)
