-- ===== src/Data/Uniqueness.antt =====
-- data/uniqueness.py: concurrency weights and look-back sizes. The times are whole nanoseconds, and
-- arrays are lists, so the checks of an array's shape and type have no counterpart.
pub mod Covering
pub mod Lookback
use jepa_btc_forecasting.Prelude.{
  ℕ, zero, suc, ◌-◌, Bool, true, false, not, ◌||◌, List, [], ◌∷◌, map, max, ltb, leb, ◌==◌,
  if◌then◌else◌, Result, ok, ◌>>=◌, ◌>>◌, refuse, require, length, filter, any, all,
}
use jepa_btc_forecasting.Prelude.Float.{Float}
use jepa_btc_forecasting.Prelude.Sort.{sort, searchsorted}

pub data UniquenessError : Type 0 where
  lengths_differ reversed_span duplicate_t_event negative_lookback no_rows bad_cap drops_every_row :
      UniquenessError

-- `zip`
unfoldable pub zip : List ℕ → List ℕ → List (ℕ × ℕ)
zip [] ys = []
zip (x ∷ xs) [] = []
zip (x ∷ xs) (y ∷ ys) = (x, y) ∷ zip xs ys

-- `_validated_spans`
unfoldable pub validated_spans : List ℕ → List ℕ → Result UniquenessError (Unit {0})
unfolding zip
validated_spans t0 t1 = do
  require (length t0 == length t1) lengths_differ
  require (all (λ s. ltb s.0 s.1) (zip t0 t1)) reversed_span

-- `len(np.unique(xs)) != len(xs)`
unfoldable pub has_duplicate : List ℕ → Bool
has_duplicate [] = false
has_duplicate (x ∷ xs) = any (λ y. x == y) xs || has_duplicate xs

-- The concurrency of `concurrency_uniqueness` at one decision time.
unfoldable pub concurrency : List ℕ → List ℕ → ℕ → ℕ
unfolding searchsorted
concurrency t0 t1 t = max (searchsorted (sort leb t0) t - searchsorted (sort leb t1) t) 1

module _ (fl : Float) where
  open fl use {F, of_ℕ, div}

  -- `concurrency_uniqueness`
  unfoldable pub concurrency_uniqueness : List ℕ → List ℕ → Result UniquenessError (List F)
  unfolding validated_spans has_duplicate concurrency
  concurrency_uniqueness t_event t_barrier = do
    validated_spans t_event t_barrier
    refuse (has_duplicate t_event) duplicate_t_event
    ok (map (λ t. div (of_ℕ 1) (of_ℕ (concurrency t_event t_barrier t))) t_event)

-- `_validated_lookbacks`
unfoldable pub validated_lookbacks : List ℕ → List ℕ → Result UniquenessError (List ℕ)
unfolding zip
validated_lookbacks t_event t_feature_start = do
  require (length t_event == length t_feature_start) lengths_differ
  require (all (λ r. leb r.1 r.0) (zip t_event t_feature_start)) negative_lookback
  ok (map (λ r. r.0 - r.1) (zip t_event t_feature_start))

-- `max(xs)` of whole numbers
unfoldable pub max_of : List ℕ → ℕ
max_of [] = 0
max_of (x ∷ xs) = max x (max_of xs)

-- `max_lookback_ns`
unfoldable pub max_lookback_ns : List ℕ → List ℕ → Result UniquenessError ℕ
unfolding validated_lookbacks max_of
max_lookback_ns t_event t_feature_start = do
  lb ← validated_lookbacks t_event t_feature_start
  refuse (length lb == 0) no_rows
  ok (max_of lb)

pub record LookbackCap : Type 0 where
  pub keep : List Bool
  pub n_dropped : ℕ
  pub cap_ns : ℕ
  pub retained_max_lookback_ns : ℕ

-- `apply_lookback_cap`, for a whole number of nanoseconds.
unfoldable pub apply_lookback_cap : List ℕ → List ℕ → ℕ → Result UniquenessError LookbackCap
unfolding validated_lookbacks max_of
apply_lookback_cap t_event t_feature_start cap_ns = do
  lb ← validated_lookbacks t_event t_feature_start
  refuse (leb cap_ns 0) bad_cap
  let keep = map (λ x. leb x cap_ns) lb
  require (any (λ k. k) keep) drops_every_row
  ok (record {
    keep = keep;
    n_dropped = length (filter (λ k. not k) keep);
    cap_ns = cap_ns;
    retained_max_lookback_ns = max_of (filter (λ x. leb x cap_ns) lb);
  })
