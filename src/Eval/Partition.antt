-- ===== src/Eval/Partition.antt =====
-- eval/partition.py: the partition contract and the span rules of its rows. A contract is a record of
-- the fields that the schema requires, and its times, durations and counts are natural numbers, so
-- that the checks for missing, unknown and mistyped fields have no counterpart. A matrix is the list
-- of its rows; an int64 is an integer in its range.
pub mod Rules
pub mod Spans
use Prim.Native.String.{String, compare}
use text.Mathlib.Text.{◌==◌ as str_eq, is_lt}
use jepa_btc_forecasting.Prelude.{
  ℕ, ◌+◌, ◌-◌, Bool, true, false, not, ◌&&◌, ◌||◌, Option, none, some, List, [], ◌∷◌, map, ltb, leb,
  ◌==◌, if◌then◌else◌, Result, ok, err, ◌>>=◌, ◌>>◌, refuse, require, length, filter, any, all,
}
use jepa_btc_forecasting.Prelude.Int.{ℤ, pos, negsuc, sub_ℕ, lt_ℤ, le_ℤ, max_ℤ}
use jepa_btc_forecasting.Prelude.Sort.{sort}
use jepa_btc_forecasting.Eval.Ledger.{contains, same_set}

pub data PartitionError : Type 0 where
  unsupported_version bad_rule_version unsupported_rule bad_bounds bad_horizons bad_drop_counts
        undeclared_horizon span_violation :
      PartitionError

-- A mapping from horizon tags to durations or counts.
abbrev pub TagMap : Type 0
TagMap = List (String × ℕ)

pub record PartitionContract : Type 0 where
  pub version : ℕ
  pub rule_version : String
  pub prefilter_rule : String
  pub dev_start_ns : ℕ
  pub holdout_start_ns : ℕ
  pub holdout_end_ns : ℕ
  pub guard_ns : ℕ
  pub horizons : TagMap
  pub development_drops : TagMap
  pub holdout_drops : TagMap

abbrev pub partition_contract_version : ℕ
partition_contract_version = 1

abbrev pub supported_rule : String
supported_rule = "t_event + horizons[horizon] + guard_ns < boundary_ns"

pub record MatrixRow : Type 0 where
  pub horizon : String
  pub t_event : ℤ
  pub t_barrier : ℤ

-- The counts of one horizon.
pub record Violations : Type 0 where
  pub before_start : ℕ
  pub prefilter : ℕ
  pub actual_span : ℕ

abbrev pub tags_of : TagMap → List String
tags_of = map (λ e. e.0)

-- `_drop_counts`: the counts are of exactly the declared horizons.
unfoldable pub check_drop_counts : TagMap → TagMap → Result PartitionError (Unit {0})
check_drop_counts counts horizons =
    require (same_set (tags_of counts) (tags_of horizons)) bad_drop_counts

abbrev pub is_horizon : String × ℕ → Bool
is_horizon h = not (str_eq h.0 "") && ltb 0 h.1

unfoldable pub validate_partition_contract : PartitionContract → Result PartitionError (Unit {0})
unfolding check_drop_counts
validate_partition_contract c = do
  require (c.version == partition_contract_version) unsupported_version
  refuse (str_eq c.rule_version "") bad_rule_version
  require (str_eq c.prefilter_rule supported_rule) unsupported_rule
  require (ltb c.dev_start_ns c.holdout_start_ns && ltb c.holdout_start_ns c.holdout_end_ns)
      bad_bounds
  refuse (leb (length c.horizons) 0 || not (all is_horizon c.horizons)) bad_horizons
  check_drop_counts c.development_drops c.horizons
  check_drop_counts c.holdout_drops c.horizons

-- horizons[tag]
unfoldable pub duration : String → TagMap → Option ℕ
duration tag [] = none
duration tag ((k, ns) ∷ m) = let rest = duration tag m in if str_eq k tag then some ns else rest

-- The distinct tags of the rows, in the order of the grouping.
unfoldable pub distinct : List MatrixRow → List String
unfolding contains
distinct [] = []
distinct (r ∷ rs) =
    let rest = distinct rs in if contains rest r.horizon then rest else r.horizon ∷ rest

abbrev pub string_le : String → String → Bool
string_le a b = not (is_lt (compare b a))

-- `_I64_MIN = -(2**63) + 1`
abbrev pub i64_floor : ℤ
i64_floor = negsuc (9_223_372_036_854_775_808 - 2)

abbrev pub pre_thresh : ℕ → ℕ → ℕ → ℤ
pre_thresh boundary_ns horizon guard = max_ℤ (sub_ℕ boundary_ns (horizon + guard)) i64_floor

abbrev pub act_thresh : ℕ → ℕ → ℤ
act_thresh boundary_ns guard = max_ℤ (sub_ℕ boundary_ns guard) i64_floor

-- The counts over the rows of one group.
unfoldable pub count_violations : ℕ → ℕ → ℕ → ℕ → List MatrixRow → Violations
count_violations lo_ns boundary_ns horizon guard rows = record {
  before_start = length (filter (λ r. lt_ℤ r.t_event (pos lo_ns)) rows);
  prefilter = length (filter (λ r. le_ℤ (pre_thresh boundary_ns horizon guard) r.t_event) rows);
  actual_span = length (filter (λ r. le_ℤ (act_thresh boundary_ns guard) r.t_barrier) rows);
}

-- `any(v.values())`
abbrev pub has_violations : Violations → Bool
has_violations v = ltb 0 v.before_start || (ltb 0 v.prefilter || ltb 0 v.actual_span)

abbrev pub rows_of : String → List MatrixRow → List MatrixRow
rows_of tag = filter (λ r. str_eq r.horizon tag)

abbrev pub at_duration : Option ℕ → ℕ
at_duration none = 0
at_duration (some ns) = ns

-- The loop over the groups; a declared tag has a duration.
unfoldable pub groups :
    ℕ → ℕ → PartitionContract → List MatrixRow → List String → List (String × Violations)
unfolding count_violations duration
groups lo_ns boundary_ns c rows [] = []
groups lo_ns boundary_ns c rows (tag ∷ tags) =
    let rest = groups lo_ns boundary_ns c rows tags in
    let v =
      count_violations lo_ns boundary_ns (at_duration (duration tag c.horizons)) c.guard_ns
        (rows_of tag rows) in
    if has_violations v then (tag, v) ∷ rest else rest

abbrev pub is_declared : TagMap → MatrixRow → Bool
is_declared horizons r = contains (tags_of horizons) r.horizon

-- `_span_violations`
unfoldable pub span_violations :
    List MatrixRow → PartitionContract → ℕ → ℕ → Result PartitionError (List (String × Violations))
unfolding groups distinct
span_violations matrix c lo_ns boundary_ns = do
  require (all (is_declared c.horizons) matrix) undeclared_horizon
  ok (groups lo_ns boundary_ns c matrix (sort string_le (distinct matrix)))

-- `if viol: raise`
abbrev pub no_violation : List (String × Violations) → Result PartitionError (Unit {0})
no_violation [] = ok tt
no_violation (v ∷ vs) = err span_violation

unfoldable pub validate_development_span :
    List MatrixRow → PartitionContract → Result PartitionError (Unit {0})
unfolding validate_partition_contract span_violations
validate_development_span matrix c = do
  validate_partition_contract c
  viol ← span_violations matrix c c.dev_start_ns c.holdout_start_ns
  no_violation viol

unfoldable pub validate_holdout_span :
    List MatrixRow → PartitionContract → Result PartitionError (Unit {0})
unfolding validate_partition_contract span_violations
validate_holdout_span matrix c = do
  validate_partition_contract c
  viol ← span_violations matrix c c.holdout_start_ns c.holdout_end_ns
  no_violation viol
