-- ===== src/Tests/Spans.antt =====
-- eval/partition.py at a concrete contract.
use jepa_btc_forecasting.Prelude.{◌≡◌, ◌↔◌, List, [], ◌∷◌, ok, arith, All}
use jepa_btc_forecasting.Prelude.Int.{pos}
use jepa_btc_forecasting.Eval.Partition.{
  PartitionContract, MatrixRow, supported_rule, validate_partition_contract,
  validate_development_span, validate_holdout_span,
}
use jepa_btc_forecasting.Eval.Partition.Rules.{IsSpanSafe}
use jepa_btc_forecasting.Eval.Partition.Spans.{
  validate_development_span-IsSpanSafe, validate_holdout_span-IsSpanSafe,
}

abbrev contract : PartitionContract
contract = record {
  version = 1;
  rule_version = "v1";
  prefilter_rule = supported_rule;
  dev_start_ns = 10;
  holdout_start_ns = 100;
  holdout_end_ns = 200;
  guard_ns = 5;
  horizons = ("2s", 20) ∷ [];
  development_drops = ("2s", 0) ∷ [];
  holdout_drops = ("2s", 1) ∷ [];
}

-- The second row's horizon and guard end one nanosecond before the holdout.
abbrev development : List MatrixRow
development =
    record { horizon = "2s"; t_event = pos 10; t_barrier = pos 12 }
    ∷ record { horizon = "2s"; t_event = pos 74; t_barrier = pos 94 }
    ∷ []

abbrev april : List MatrixRow
april = record { horizon = "2s"; t_event = pos 100; t_barrier = pos 120 } ∷ []

validate_development_span_example : (validate_development_span development contract ≡ ok tt) ↔ (
    (validate_partition_contract contract ≡ ok tt) × All (IsSpanSafe 10 100 contract) development)
validate_development_span_example =
    validate_development_span-IsSpanSafe development contract (omega arith, (omega arith, tt))

validate_holdout_span_example :
    (validate_holdout_span april contract ≡ ok tt)
    ↔ ((validate_partition_contract contract ≡ ok tt) × All (IsSpanSafe 100 200 contract) april)
validate_holdout_span_example = validate_holdout_span-IsSpanSafe april contract (omega arith, tt)
