-- ===== src/Eval/Partition/Spans.antt =====
-- eval/partition.py: what every row of an accepted matrix keeps clear of.
use Prim.Native.String.{String}
use mathlib.Core.Path.{subst}
use text.Mathlib.Text.{◌==◌ as str_eq}
use text.Mathlib.TextEquality.{eq_iff}
use text.Mathlib.TextPositions.{eq_refl}
use jepa_btc_forecasting.Prelude.{
  ℕ, ◌≤◌, ◌≡◌, refl, sym, ap, ◌∙◌, Bool, true, false, ◌||◌, List, [], ◌∷◌, arith, ltb, ok, ◌>>=◌,
  ◌>>◌, require, >>=-eq-ok, >>=-of_ok, ◌↔◌, require-ok, length, all, All, All-map, All-zip,
}
use jepa_btc_forecasting.Prelude.Int.{pos, neg_part, lt_ℤ, le_ℤ}
use jepa_btc_forecasting.Prelude.Sort.{sort}
use jepa_btc_forecasting.Prelude.Sort.Laws.{any-sort}
use jepa_btc_forecasting.Eval.Partition.{
  PartitionContract, MatrixRow, Violations, duration, distinct, string_le, pre_thresh, act_thresh,
  count_violations, has_violations, rows_of, at_duration, groups, is_declared, span_violations,
  no_violation, validate_partition_contract, validate_development_span, validate_holdout_span,
  undeclared_horizon,
}
use jepa_btc_forecasting.Eval.Partition.Rules.{
  IsSpanSafe, IsClear, started_of, horizon_clear_of, barrier_clear_of, none_counted, no_groups,
  contains-distinct, contains-any, All-any, All-diag, declared-duration, IsSpanSafe-IsClear,
  counted_none, duration-declared,
}

none-of_three : (a b c : Bool) → (a || (b || c)) ≡ false → (a ≡ false) × (b ≡ false) × (c ≡ false)
none-of_three a b c h = ground arith

all-All :
    (p : MatrixRow → Bool) (rows : List MatrixRow) → all p rows ≡ true → All (λ r. p r ≡ true) rows
all-All p [] h = tt
all-All p (r ∷ rows) h = (ground (arith, h), all-All p rows (ground (arith, h)))

module _ (lo boundary : ℕ) (c : PartitionContract) (rows : List MatrixRow) where
  -- The tests of the three rules are clear of the rows of a tag.
  abbrev AreClear : String → Type 0
  AreClear tag =
      All
        (λ r.
          str_eq r.horizon tag ≡ true
          → IsClear lo boundary (at_duration (duration tag c.horizons)) c.guard_ns r)
        rows

  AreClear-at :
      (tag : String)
      → has_violations (
          count_violations lo boundary
            (at_duration (duration tag c.horizons))
            c.guard_ns
            (rows_of tag rows))
        ≡ false
      → AreClear tag
  unfolding count_violations
  AreClear-at tag h =
      let ns = at_duration (duration tag c.horizons) in
      let own = λ (r : MatrixRow). str_eq r.horizon tag in
      let starts = λ (r : MatrixRow). lt_ℤ r.t_event (pos lo) in
      let widens = λ (r : MatrixRow). le_ℤ (pre_thresh boundary ns c.guard_ns) r.t_event in
      let holds = λ (r : MatrixRow). le_ℤ (act_thresh boundary c.guard_ns) r.t_barrier in
      let (s, w, b) = none-of_three _ _ _ h in
      All-zip (λ r. own r ≡ true → starts r ≡ false)
        (λ r. (own r ≡ true → widens r ≡ false) × (own r ≡ true → holds r ≡ false)) _
        (λ r x yz k. (x k, yz.0 k, yz.1 k)) rows (none_counted starts own rows s)
        (All-zip (λ r. own r ≡ true → widens r ≡ false) (λ r. own r ≡ true → holds r ≡ false) _
          (λ r y z. (y, z)) rows (none_counted widens own rows w) (none_counted holds own rows b))

  -- A matrix without violations has only safe rows.
  no_violations-IsSpanSafe :
      (viol : List (String × Violations)) {u : Unit {0}}
      → All (λ r. neg_part r.t_barrier ≤ 9_223_372_036_854_775_808) rows
      → span_violations rows c lo boundary ≡ ok viol
      → no_violation viol ≡ ok u
      → All (IsSpanSafe lo boundary c) rows
  unfolding span_violations
  no_violations-IsSpanSafe viol range h k =
      let tags = sort string_le (distinct rows) in
      let (u, declared, done) =
        >>=-eq-ok (require (all (is_declared c.horizons) rows) undeclared_horizon) _ h in
      let none_left : groups lo boundary c rows tags ≡ [] = ground (arith, done, empty viol k) in
      let clear =
        All-map _ AreClear AreClear-at tags (no_groups lo boundary c rows tags none_left) in
      let at_row : All (λ r. AreClear r.horizon) rows =
        All-map _ _
          (λ r there. All-any AreClear r.horizon tags clear (
            any-sort (λ y. str_eq y r.horizon) string_le (distinct rows)
            ∙ sym (contains-any (distinct rows) r.horizon)
            ∙ there))
          rows (contains-distinct rows) in
      let own =
        All-diag
          (λ r x.
            str_eq x.horizon r.horizon ≡ true
            → IsClear lo boundary (at_duration (duration r.horizon c.horizons)) c.guard_ns x)
          rows at_row in
      All-zip
        (λ r.
          str_eq r.horizon r.horizon ≡ true
          → IsClear lo boundary (at_duration (duration r.horizon c.horizons)) c.guard_ns r)
        (λ r.
          (is_declared c.horizons r ≡ true) × (neg_part r.t_barrier ≤ 9_223_372_036_854_775_808))
        (IsSpanSafe lo boundary c)
        (λ r clear_row known. safe r (clear_row (eq_refl r.horizon)) known.0 known.1) rows own
        (All-zip _ _ _ (λ r x y. (x, y)) rows
          (all-All (is_declared c.horizons) rows (require-ok _ undeclared_horizon declared)) range)
    where
      empty : (v : List (String × Violations)) {u : Unit {0}} → no_violation v ≡ ok u → v ≡ []
      empty [] e = refl
      empty (x ∷ xs) e = cc

      safe :
          (r : MatrixRow)
          → IsClear lo boundary (at_duration (duration r.horizon c.horizons)) c.guard_ns r
          → is_declared c.horizons r ≡ true
          → neg_part r.t_barrier ≤ 9_223_372_036_854_775_808
          → IsSpanSafe lo boundary c r
      safe r clear_row known low =
          let (ns, found) = declared-duration r.horizon c.horizons known in
          let started = started_of lo r.t_event clear_row.0 in
          let wide : le_ℤ (pre_thresh boundary ns c.guard_ns) r.t_event ≡ false =
            subst (λ d. le_ℤ (pre_thresh boundary (at_duration d) c.guard_ns) r.t_event ≡ false)
              found clear_row.1 in
          record {
            ns = ns;
            declared = found;
            started = started;
            horizon_clear = horizon_clear_of boundary ns c.guard_ns r.t_event started.0 wide;
            barrier_clear = barrier_clear_of boundary c.guard_ns r.t_barrier low clear_row.2;
          }

-- A matrix of safe rows has no violations.
IsSpanSafe-no_violations :
    (lo boundary : ℕ) (c : PartitionContract) (rows : List MatrixRow)
    → All (IsSpanSafe lo boundary c) rows
    → span_violations rows c lo boundary ≡ ok []
unfolding span_violations
IsSpanSafe-no_violations lo boundary c rows h =
    rw
      (
        all_of (is_declared c.horizons) rows
            (All-map _ _ (λ r k. duration-declared r.horizon c.horizons k.ns k.declared) rows h),
        no_group (sort string_le (distinct rows)),
      )
      refl
  where
    all_of :
        (p : MatrixRow → Bool) (rs : List MatrixRow) → All (λ r. p r ≡ true) rs → all p rs ≡ true
    all_of p [] k = refl
    all_of p (r ∷ rs) k = ground (arith, k.0, all_of p rs k.1)

    clear_tag : (tag : String) → AreClear lo boundary c rows tag
    clear_tag tag =
        All-map _ _
          (λ r k same.
            let e = (eq_iff r.horizon tag).0 same in
            subst (λ x. IsClear lo boundary (at_duration (duration x c.horizons)) c.guard_ns r) e
              (IsSpanSafe-IsClear lo boundary c r k))
          rows h

    no_count :
        (tag : String)
        → has_violations (
            count_violations lo boundary
              (at_duration (duration tag c.horizons))
              c.guard_ns
              (rows_of tag rows))
          ≡ false
    no_count tag =
        let own = λ (r : MatrixRow). str_eq r.horizon tag in
        let ns = at_duration (duration tag c.horizons) in
        let zero = λ (p : MatrixRow → Bool) (k : All (λ r. own r ≡ true → p r ≡ false) rows).
          ap (λ l. ltb 0 (length l)) (counted_none p own rows k) in
        let s =
          zero (λ r. lt_ℤ r.t_event (pos lo))
            (All-map _ _ (λ r k same. (k same).0) rows (clear_tag tag)) in
        let w =
          zero (λ r. le_ℤ (pre_thresh boundary ns c.guard_ns) r.t_event)
            (All-map _ _ (λ r k same. (k same).1) rows (clear_tag tag)) in
        let b =
          zero (λ r. le_ℤ (act_thresh boundary c.guard_ns) r.t_barrier)
            (All-map _ _ (λ r k same. (k same).2) rows (clear_tag tag)) in
        rw (s, w, b) refl

    no_group : (tags : List String) → groups lo boundary c rows tags ≡ []
    no_group [] = refl
    no_group (tag ∷ tags) = rw (no_count tag) (no_group tags)

-- The check of a partition, as both spans make it.
accepted_iff :
    (lo boundary : ℕ) (c : PartitionContract) (rows : List MatrixRow)
    → All (λ r. neg_part r.t_barrier ≤ 9_223_372_036_854_775_808) rows
    → ((validate_partition_contract c >> (span_violations rows c lo boundary >>= no_violation))
        ≡ ok tt)
      ↔ ((validate_partition_contract c ≡ ok tt) × All (IsSpanSafe lo boundary c) rows)
accepted_iff lo boundary c rows range = (
  λ h.
      let (u, valid, h1) = >>=-eq-ok (validate_partition_contract c) _ h in
      let (viol, counted, h2) = >>=-eq-ok (span_violations rows c lo boundary) _ h1 in
      (valid, no_violations-IsSpanSafe lo boundary c rows viol range counted h2),
  λ h. >>=-of_ok (validate_partition_contract c) _ h.0 (
      >>=-of_ok (span_violations rows c lo boundary) _
        (IsSpanSafe-no_violations lo boundary c rows h.1) refl),
)

-- A development matrix whose barriers' times are in the range of an int64 is accepted exactly if the
-- contract is valid and every row is safe: its horizon is declared, its event is at or after the start
-- of the development, and its support with the guard ends strictly before the holdout starts, both by
-- its horizon and, unless its barrier's time is the lowest int64, by its barrier.
pub validate_development_span-IsSpanSafe :
    (matrix : List MatrixRow) (c : PartitionContract)
    → All (λ r. neg_part r.t_barrier ≤ 9_223_372_036_854_775_808) matrix
    → (validate_development_span matrix c ≡ ok tt) ↔ (
        (validate_partition_contract c ≡ ok tt)
        × All (IsSpanSafe c.dev_start_ns c.holdout_start_ns c) matrix)
unfolding validate_development_span
validate_development_span-IsSpanSafe matrix c range =
    accepted_iff c.dev_start_ns c.holdout_start_ns c matrix range

-- A holdout matrix whose barriers' times are in the range of an int64 is accepted exactly if the
-- contract is valid and every row is safe: its horizon is declared, its event is at or after the start
-- of the holdout, and its support with the guard ends strictly before the end of the holdout, both by
-- its horizon and, unless its barrier's time is the lowest int64, by its barrier.
pub validate_holdout_span-IsSpanSafe :
    (matrix : List MatrixRow) (c : PartitionContract)
    → All (λ r. neg_part r.t_barrier ≤ 9_223_372_036_854_775_808) matrix
    → (validate_holdout_span matrix c ≡ ok tt) ↔ (
        (validate_partition_contract c ≡ ok tt)
        × All (IsSpanSafe c.holdout_start_ns c.holdout_end_ns c) matrix)
unfolding validate_holdout_span
validate_holdout_span-IsSpanSafe matrix c range =
    accepted_iff c.holdout_start_ns c.holdout_end_ns c matrix range
