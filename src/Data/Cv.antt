-- ===== src/Data/Cv.antt =====
-- data/cv.py: purged and embargoed combinatorial cross-validation. An array of rows is a list, and
-- an index array is the list of the indexed rows that it selects. Times and the embargo are
-- non-negative int64 values.
pub mod Purge
use jepa_btc_forecasting.Prelude.{
  ℕ, zero, suc, ◌+◌, ◌*◌, ◌/◌, Bool, true, false, not, ◌&&◌, ◌||◌, List, [], ◌∷◌, ◌++◌, map, max,
  ltb, leb, ◌==◌, if◌then◌else◌, Result, ok, ◌>>=◌, ◌>>◌, refuse, require, length, filter, any,
}
use jepa_btc_forecasting.Prelude.Int.{pos, le_ℤ, wrap_i64}
use jepa_btc_forecasting.Prelude.Sort.{sort}

pub data CvError : Type 0 where
  too_few_groups bad_k too_many_groups : CvError

-- A row: its decision time and its label span.
pub record Row : Type 0 where
  pub t_event : ℕ
  pub t0 : ℕ
  pub t1 : ℕ

abbrev pub Indexed : Type 0
Indexed = ℕ × Row

-- `enumerate`
unfoldable pub indexed : ℕ → List Row → List Indexed
indexed i [] = []
indexed i (r ∷ rs) = (i, r) ∷ indexed (suc i) rs

abbrev pub event_le : Indexed → Indexed → Bool
event_le a b = leb a.1.t_event b.1.t_event

-- The position of an index in the order: `rank[order] = arange(n)`.
unfoldable pub rank_of : ℕ → List Indexed → ℕ
rank_of i [] = 0
rank_of i (r ∷ order) = let rest = rank_of i order in if r.0 == i then 0 else suc rest

-- `make_time_groups`, at one index.
unfoldable pub time_group : List Row → ℕ → ℕ → ℕ
unfolding indexed rank_of
time_group rows n_groups i = rank_of i (sort event_le (indexed 0 rows)) * n_groups / length rows

abbrev pub lo_le : ℕ × ℕ → ℕ × ℕ → Bool
lo_le a b = leb a.0 b.0

-- The loop of `_merge_intervals`, from its last interval `(a, b)` on.
unfoldable pub merge_from : ℕ → ℕ → List (ℕ × ℕ) → List (ℕ × ℕ)
merge_from a b [] = (a, b) ∷ []
merge_from a b ((lo, hi) ∷ spans) =
    let joined = merge_from a (max b hi) spans in
    let next = merge_from lo hi spans in if leb lo b then joined else (a, b) ∷ next

unfoldable pub merge_sorted_intervals : List (ℕ × ℕ) → List (ℕ × ℕ)
unfolding merge_from
merge_sorted_intervals [] = []
merge_sorted_intervals ((lo, hi) ∷ spans) = merge_from lo hi spans

-- `_merge_intervals`
unfoldable pub merge_intervals : List (ℕ × ℕ) → List (ℕ × ℕ)
unfolding merge_sorted_intervals
merge_intervals spans = merge_sorted_intervals (sort lo_le spans)

-- A row is purged by one merged test interval: by overlap, or by the embargo after it. The interval's
-- end is an int64, and so is its sum with the embargo.
abbrev pub purged_by : ℕ → Row → ℕ × ℕ → Bool
purged_by embargo_ns r block =
    leb r.t0 block.1 && leb block.0 r.t1
    || ltb block.1 r.t0 && le_ℤ (pos r.t0) (wrap_i64 (block.1 + embargo_ns))

-- `combinations(xs, k)` in itertools' order.
unfoldable pub combinations : List ℕ → ℕ → List (List ℕ)
combinations xs zero = [] ∷ []
combinations [] (suc k) = []
combinations (x ∷ xs) (suc k) = map (◌∷◌ x) (combinations xs k) ++ combinations xs (suc k)

-- `range(a, a + n)`
unfoldable pub range_from : ℕ → ℕ → List ℕ
range_from a zero = []
range_from a (suc n) = a ∷ range_from (suc a) n

abbrev pub span_of : Indexed → ℕ × ℕ
span_of r = (r.1.t0, r.1.t1)

-- One round of `_cpcv_iter`: the train rows and the test rows of a combination of groups.
unfoldable pub split : List Row → ℕ → ℕ → List ℕ → List Indexed × List Indexed
unfolding time_group merge_intervals indexed
split rows n_groups embargo_ns combo =
    let is_test = λ (r : Indexed). any (λ g. g == time_group rows n_groups r.0) combo in
    let test = filter is_test (indexed 0 rows) in
    let blocks = merge_intervals (map span_of test) in
    (
      filter (λ r. not (is_test r) && not (any (purged_by embargo_ns r.1) blocks)) (indexed 0 rows),
      test,
    )

-- `cpcv_splits`
unfoldable pub cpcv_splits :
    List Row → ℕ → ℕ → ℕ → Result CvError (List (List Indexed × List Indexed))
unfolding split combinations range_from
cpcv_splits rows n_groups k embargo_ns = do
  refuse (ltb n_groups 2) too_few_groups
  require (leb 1 k && ltb k n_groups) bad_k
  refuse (ltb (length rows) n_groups) too_many_groups
  ok (map (split rows n_groups embargo_ns) (combinations (range_from 0 n_groups) k))
