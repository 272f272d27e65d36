-- ===== src/Recon/Stitch/Guards.antt =====
-- recon/stitch_policy.py, the label and feature masks beside the seams.
use jepa_btc_forecasting.Prelude.{
  ℕ, ◌+◌, ◌-◌, ◌≤◌, ◌≡◌, refl, Bool, true, false, ◌&&◌, ◌||◌, List, [], ◌∷◌, ltb, leb, arith, ◌<◌,
  ◌^◌, ◌⊎◌, inl, inr,
}
use jepa_btc_forecasting.Prelude.Int.{sub_ℕ, lt_ℤ, wrap_i64, wrap_i64-small}
use jepa_btc_forecasting.Recon.Stitch.{seam_guard, window_crosses_seam, label_valid, feature_valid}

-- The test of one seam, where the end of the window does not wrap around.
ends_before :
    (s h g ts : ℕ) → ts + h < 2 ^ 63 → lt_ℤ (wrap_i64 (ts + h)) (sub_ℕ s g) ≡ true → ts + h + g < s
ends_before s h g ts w k = ground (arith, k, wrap_i64-small (ts + h) w)

-- A label that is valid and whose window ends within the int64 range has its whole window outside
-- every guard band and across no seam.
pub label_valid_lem :
    (seams : List ℕ) (horizon_ns guard_ns ts : ℕ)
    → ts + horizon_ns < 2 ^ 63
    → label_valid seams horizon_ns guard_ns ts ≡ true
    → (window_crosses_seam ts (ts + horizon_ns) seams ≡ false)
      × ((u : ℕ) → u ≤ horizon_ns → seam_guard seams guard_ns (ts + u) ≡ false)
unfolding label_valid window_crosses_seam seam_guard
label_valid_lem [] h g ts w v = (refl, λ u k. refl)
label_valid_lem (s ∷ seams) h g ts w v =
    let parts = one (lt_ℤ (wrap_i64 (ts + h)) (sub_ℕ s g) || leb (s + g) ts) _ v in
    let clear = side (lt_ℤ (wrap_i64 (ts + h)) (sub_ℕ s g)) (leb (s + g) ts) parts.0 in
    let rest = label_valid_lem seams h g ts w parts.1 in
    elim clear [
      | inl t ↦
          let before = ends_before s h g ts w t in
          (ground (arith, before, rest.0), λ u k. ground (arith, before, rest.1 u k, k))
      | inr t ↦ (ground (arith, t, rest.0), λ u k. ground (arith, t, rest.1 u k, k))
    ]
  where
    one : (a b : Bool) → (a && b) ≡ true → (a ≡ true) × (b ≡ true)
    one a b h = ground arith

    side : (a b : Bool) → (a || b) ≡ true → (a ≡ true) ⊎ (b ≡ true)
    side true b h = inl refl
    side false b h = inr h

-- A feature that is valid, with a look-back that reaches no time below zero, has its whole window
-- outside every guard band and across no seam.
pub feature_valid_lem :
    (seams : List ℕ) (lookback_ns guard_ns ts : ℕ)
    → lookback_ns ≤ ts
    → feature_valid seams lookback_ns guard_ns ts ≡ true
    → (window_crosses_seam (ts - lookback_ns) ts seams ≡ false)
      × ((u : ℕ) → u ≤ lookback_ns → seam_guard seams guard_ns (ts - u) ≡ false)
unfolding feature_valid window_crosses_seam seam_guard
feature_valid_lem [] l g ts le v = (refl, λ u k. refl)
feature_valid_lem (s ∷ seams) l g ts le v =
    let parts = one (ltb (ts + g) s || leb (s + g + l) ts) _ v in
    let rest = feature_valid_lem seams l g ts le parts.1 in
    (ground (arith, parts.0, rest.0, le), λ u k. ground (arith, parts.0, rest.1 u k, k, le))
  where
    one : (a b : Bool) → (a && b) ≡ true → (a ≡ true) × (b ≡ true)
    one a b h = ground arith
