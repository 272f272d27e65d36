-- ===== src/Data/Uniqueness/Lookback.antt =====
-- data/uniqueness.py, `apply_lookback_cap`.
use jepa_btc_forecasting.Prelude.{
  ℕ, ◌+◌, ◌≤◌, ◌≡◌, refl, sym, not, List, [], ◌∷◌, map, max, leb, arith, ok, length, filter, All,
  All-map,
}
use jepa_btc_forecasting.Data.Uniqueness.{
  LookbackCap, validated_lookbacks, max_of, apply_lookback_cap,
}

max_of-le : (xs : List ℕ) → All (λ x. x ≤ max_of xs) xs
unfolding max_of
max_of-le [] = tt
max_of-le (x ∷ xs) = (
  omega arith,
  All-map (λ y. y ≤ max_of xs) (λ y. y ≤ max x (max_of xs)) (λ y h. omega arith) xs (max_of-le xs),
)

max_of-bound : (m : ℕ) (xs : List ℕ) → max_of (filter (λ x. leb x m) xs) ≤ m
unfolding max_of
max_of-bound m [] = omega arith
max_of-bound m (x ∷ xs) = ground (arith, max_of-bound m xs)

dropped_count :
    (m : ℕ) (xs : List ℕ)
    → length (filter (λ k. not k) (map (λ x. leb x m) xs)) + length (filter (λ x. leb x m) xs)
      ≡ length xs
dropped_count m [] = refl
dropped_count m (x ∷ xs) = ground (arith, dropped_count m xs)

-- What a cap reports of the look-backs.
abbrev report : List ℕ → ℕ → LookbackCap
report lb cap_ns = record {
  keep = map (λ x. leb x cap_ns) lb;
  n_dropped = length (filter (λ k. not k) (map (λ x. leb x cap_ns) lb));
  cap_ns = cap_ns;
  retained_max_lookback_ns = max_of (filter (λ x. leb x cap_ns) lb);
}

apply_lookback_cap-report :
    (t_event t_feature_start : List ℕ) (cap_ns : ℕ) (lb : List ℕ) (c : LookbackCap)
    → validated_lookbacks t_event t_feature_start ≡ ok lb
    → apply_lookback_cap t_event t_feature_start cap_ns ≡ ok c
    → report lb cap_ns ≡ c
unfolding apply_lookback_cap
apply_lookback_cap-report te tfs cap lb c valid h = ground arith

-- A look-back cap that is reported keeps exactly the rows within it: every retained look-back is at
-- most the reported maximum, that maximum is at most the cap, and each row is dropped or retained.
pub apply_lookback_cap_lem :
    (t_event t_feature_start : List ℕ) (cap_ns : ℕ) (lb : List ℕ) (c : LookbackCap)
    → validated_lookbacks t_event t_feature_start ≡ ok lb
    → apply_lookback_cap t_event t_feature_start cap_ns ≡ ok c
    → (c.keep ≡ map (λ x. leb x cap_ns) lb)
      × All (λ x. x ≤ c.retained_max_lookback_ns) (filter (λ x. leb x cap_ns) lb)
      × (c.retained_max_lookback_ns ≤ cap_ns)
      × (c.n_dropped + length (filter (λ x. leb x cap_ns) lb) ≡ length lb)
apply_lookback_cap_lem te tfs cap lb c valid h =
    rw (sym (apply_lookback_cap-report te tfs cap lb c valid h))
      (refl, max_of-le (filter (λ x. leb x cap) lb), max_of-bound cap lb, dropped_count cap lb)
