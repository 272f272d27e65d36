-- ===== src/Data/Cv/Purge.antt =====
-- data/cv.py: the merged test intervals and the purge.
use mathlib.Core.Path.{subst}
use jepa_btc_forecasting.Prelude.{
  ℕ, suc, ◌^◌, ◌≤◌, ◌<◌, ◌+◌, ◌≡◌, refl, Bool, true, false, not, ◌&&◌, List, [], ◌∷◌, map, max,
  arith, leb, ltb, ◌⊎◌, inl, inr, Bool-cases, leb→le, leb-false→lt, ok, All, All-map, filter, any,
  le→ltb-false, le→leb, lt→ltb, length, ◌==◌,
}
use jepa_btc_forecasting.Prelude.Int.{wrap_i64-small}
use jepa_btc_forecasting.Prelude.Order.{Preorder}
use jepa_btc_forecasting.Prelude.Sort.{sort}
use jepa_btc_forecasting.Prelude.Sort.Laws.{IsSorted, All-of_sort, All-sort, sort-IsSorted}
use jepa_btc_forecasting.Data.Cv.{
  Row, Indexed, lo_le, merge_from, merge_sorted_intervals, merge_intervals, purged_by, split,
  cpcv_splits, span_of, combinations, range_from, indexed, time_group,
}

lo_total : (a b : ℕ × ℕ) → lo_le a b ≡ false → lo_le b a ≡ true
lo_total a b h = ground arith

lo_trans : (a b c : ℕ × ℕ) → lo_le a b ≡ true → lo_le b c ≡ true → lo_le a c ≡ true
lo_trans a b c h k = ground arith

abbrev lo_order : Preorder (ℕ × ℕ)
lo_order = record { le = lo_le; total = lo_total; trans = lo_trans }

-- The span lies in the interval.
abbrev pub IsInside : ℕ × ℕ → ℕ × ℕ → Type 0
IsInside s block = (block.0 ≤ s.0) × (s.1 ≤ block.1)

-- The span lies in one of the intervals.
abbrev pub IsCovered : List (ℕ × ℕ) → ℕ × ℕ → Type 0
IsCovered [] s = ⊥
IsCovered (block ∷ blocks) s = IsInside s block ⊎ IsCovered blocks s

IsCovered-within :
    (s t : ℕ × ℕ) (blocks : List (ℕ × ℕ)) → IsInside s t → IsCovered blocks t → IsCovered blocks s
IsCovered-within s t [] h c = c
IsCovered-within s t (block ∷ blocks) h (inl c) = inl (omega (arith, h, c), omega (arith, h, c))
IsCovered-within s t (block ∷ blocks) h (inr c) = inr (IsCovered-within s t blocks h c)

merge_from-join :
    (a b lo hi : ℕ) (spans : List (ℕ × ℕ))
    → leb lo b ≡ true
    → merge_from a (max b hi) spans ≡ merge_from a b ((lo, hi) ∷ spans)
unfolding merge_from
merge_from-join a b lo hi spans h = rw h refl

merge_from-next :
    (a b lo hi : ℕ) (spans : List (ℕ × ℕ))
    → leb lo b ≡ false
    → (a, b) ∷ merge_from lo hi spans ≡ merge_from a b ((lo, hi) ∷ spans)
unfolding merge_from
merge_from-next a b lo hi spans h = rw h refl

-- The intervals cover a list of spans.
abbrev pub Covers : List (ℕ × ℕ) → List (ℕ × ℕ) → Type 0
Covers spans blocks = All (IsCovered blocks) spans

-- The merged intervals cover the open one and every span to come.
merge_from-Covers :
    (a b : ℕ) (spans : List (ℕ × ℕ))
    → All (λ s. lo_le (a, b) s ≡ true) spans
    → IsSorted lo_le spans
    → Covers ((a, b) ∷ spans) (merge_from a b spans)
merge_from-Covers a b [] h s = unfold merge_from in (inl (omega arith, omega arith), tt)
merge_from-Covers a b ((lo, hi) ∷ spans) h s = elim (Bool-cases (leb lo b)) [
  | inl t ↦
      let rest = merge_from-Covers a (max b hi) spans h.1 s.1 in
      let blocks = merge_from a (max b hi) spans in
      subst (Covers ((a, b) ∷ (lo, hi) ∷ spans)) (merge_from-join a b lo hi spans t) (
        IsCovered-within (a, b) (a, max b hi) blocks (omega arith, omega arith) rest.0,
        (
          IsCovered-within (lo, hi) (a, max b hi) blocks (leb→le _ _ h.0, omega arith) rest.0,
          rest.1,
        ),
      )
  | inr f ↦
      let rest = merge_from-Covers lo hi spans s.0 s.1 in
      subst (Covers ((a, b) ∷ (lo, hi) ∷ spans)) (merge_from-next a b lo hi spans f) (
        inl (omega arith, omega arith),
        (
          inr rest.0,
          All-map (IsCovered (merge_from lo hi spans)) (IsCovered ((a, b) ∷ merge_from lo hi spans))
              (λ x c. inr c) spans rest.1,
        ),
      )
]

covers_sorted :
    (spans : List (ℕ × ℕ))
    → IsSorted lo_le spans
    → All (IsCovered (merge_sorted_intervals spans)) spans
unfolding merge_sorted_intervals
covers_sorted [] s = tt
covers_sorted ((lo, hi) ∷ spans) s = (merge_from-Covers lo hi spans s.0 s.1)

-- Every span lies in one of the merged intervals.
merge_intervals-covers : (spans : List (ℕ × ℕ)) → All (IsCovered (merge_intervals spans)) spans
unfolding merge_intervals
merge_intervals-covers spans =
    All-of_sort (IsCovered (merge_intervals spans)) lo_le spans
      (covers_sorted (sort lo_le spans) (sort-IsSorted lo_order spans))

-- A row apart from a test row: its span ends before the test row's begins, or begins after the
-- test row's end and the embargo.
abbrev pub IsApart : ℕ → Row → Row → Type 0
IsApart embargo_ns r t = (r.t1 < t.t0) ⊎ (t.t1 + embargo_ns < r.t0)

-- The embargo after an interval ends within the int64 range.
abbrev EndsInRange : ℕ → ℕ × ℕ → Type 0
EndsInRange embargo_ns s = s.1 + embargo_ns < 2 ^ 63

merge_from-EndsInRange :
    (e a b : ℕ) (spans : List (ℕ × ℕ))
    → b + e < 2 ^ 63
    → All (EndsInRange e) spans
    → All (EndsInRange e) (merge_from a b spans)
merge_from-EndsInRange e a b [] h k = unfold merge_from in (h, tt)
merge_from-EndsInRange e a b ((lo, hi) ∷ spans) h k = elim (Bool-cases (leb lo b)) [
  | inl t ↦
      subst (All (EndsInRange e)) (merge_from-join a b lo hi spans t)
        (merge_from-EndsInRange e a (max b hi) spans (omega (arith, h, k.0)) k.1)
  | inr f ↦
      subst (All (EndsInRange e)) (merge_from-next a b lo hi spans f)
        (h, merge_from-EndsInRange e lo hi spans k.0 k.1)
]

sorted-EndsInRange :
    (e : ℕ) (spans : List (ℕ × ℕ))
    → All (EndsInRange e) spans
    → All (EndsInRange e) (merge_sorted_intervals spans)
unfolding merge_sorted_intervals
sorted-EndsInRange e [] h = tt
sorted-EndsInRange e ((lo, hi) ∷ spans) h = merge_from-EndsInRange e lo hi spans h.0 h.1

merge_intervals-EndsInRange :
    (e : ℕ) (spans : List (ℕ × ℕ))
    → All (EndsInRange e) spans
    → All (EndsInRange e) (merge_intervals spans)
unfolding merge_intervals
merge_intervals-EndsInRange e spans h =
    sorted-EndsInRange e (sort lo_le spans) (All-sort (EndsInRange e) lo_le spans h)

kept-IsApart :
    (embargo_ns : ℕ) (r t : Row) (blocks : List (ℕ × ℕ))
    → All (EndsInRange embargo_ns) blocks
    → any (purged_by embargo_ns r) blocks ≡ false
    → IsCovered blocks (t.t0, t.t1)
    → IsApart embargo_ns r t
kept-IsApart e r t [] w h c = absurd c
kept-IsApart e r t (block ∷ blocks) w h (inl c) = elim (Bool-cases (ltb block.1 r.t0)) [
  | inl after ↦
      let far : leb r.t0 (block.1 + e) ≡ false =
        ground (arith, h, after, wrap_i64-small (block.1 + e) w.0) in
      inr (omega (arith, c, leb-false→lt r.t0 (block.1 + e) far))
  | inr before ↦
      let apart : leb block.0 r.t1 ≡ false = ground (arith, h, before) in
      inl (omega (arith, c, leb-false→lt block.0 r.t1 apart))
]
kept-IsApart e r t (block ∷ blocks) w h (inr c) =
    kept-IsApart e r t blocks w.1 (ground (arith, h)) c

-- Each train row of a split is apart from each of its test rows.
abbrev pub IsPurged : ℕ → List Indexed × List Indexed → Type 0
IsPurged embargo_ns s =
    All (λ (r : Indexed). All (λ (t : Indexed). IsApart embargo_ns r.1 t.1) s.1) s.0

any-cons_false : (a b : Bool) → (a && not b) ≡ true → (a ≡ true) × (b ≡ false)
any-cons_false a b h = ground arith

module _ {A : Type 0} (p : A → Bool) where
  -- What a filter keeps passes the test.
  All-filter : (xs : List A) → All (λ x. p x ≡ true) (filter p xs)
  All-filter [] = tt
  All-filter (x ∷ xs) = elim (Bool-cases (p x)) [
    | inl t ↦ rw t (t, All-filter xs)
    | inr f ↦ rw f (All-filter xs)
  ]

tests-IsCovered :
    (test : List Indexed) (blocks : List (ℕ × ℕ))
    → All (IsCovered blocks) (map span_of test)
    → All (λ (t : Indexed). IsCovered blocks (t.1.t0, t.1.t1)) test
tests-IsCovered [] blocks h = tt
tests-IsCovered (t ∷ test) blocks h = (h.0, tests-IsCovered test blocks h.1)

-- The embargo after a row's label span ends within the int64 range.
abbrev pub IsInRange : ℕ → Row → Type 0
IsInRange embargo_ns r = r.t1 + embargo_ns < 2 ^ 63

spans-EndsInRange :
    (p : Indexed → Bool) (e i : ℕ) (rows : List Row)
    → All (IsInRange e) rows
    → All (EndsInRange e) (map span_of (filter p (indexed i rows)))
unfolding indexed
spans-EndsInRange p e i [] h = tt
spans-EndsInRange p e i (r ∷ rows) h = elim (Bool-cases (p (i, r))) [
  | inl t ↦ rw t (h.0, spans-EndsInRange p e (suc i) rows h.1)
  | inr f ↦ rw f (spans-EndsInRange p e (suc i) rows h.1)
]

split-IsPurged :
    (rows : List Row) (n_groups embargo_ns : ℕ) (combo : List ℕ)
    → All (IsInRange embargo_ns) rows
    → IsPurged embargo_ns (split rows n_groups embargo_ns combo)
unfolding split
split-IsPurged rows n e combo w =
    let test = (split rows n e combo).1 in
    let blocks = merge_intervals (map span_of test) in
    let covered = tests-IsCovered test blocks (merge_intervals-covers (map span_of test)) in
    let is_test = λ (r : Indexed). any (λ g. g == time_group rows n r.0) combo in
    let in_range =
      merge_intervals-EndsInRange e (map span_of test) (spans-EndsInRange is_test e 0 rows w) in
    let keep = λ (r : Indexed). not (is_test r) && not (any (purged_by e r.1) blocks) in
    All-map (λ r. keep r ≡ true) (λ r. All (λ (t : Indexed). IsApart e r.1 t.1) test)
      (λ r k.
        All-map (λ (t : Indexed). IsCovered blocks (t.1.t0, t.1.t1)) (λ t. IsApart e r.1 t.1)
          (λ t c. kept-IsApart e r.1 t.1 blocks in_range (any-cons_false _ _ k).1 c) test covered)
      (split rows n e combo).0 (All-filter keep (indexed 0 rows))

splits-IsPurged :
    (rows : List Row) (n e : ℕ) (combos : List (List ℕ))
    → All (IsInRange e) rows
    → All (IsPurged e) (map (split rows n e) combos)
splits-IsPurged rows n e [] w = tt
splits-IsPurged rows n e (c ∷ cs) w = (split-IsPurged rows n e c w, splits-IsPurged rows n e cs w)

-- The splits exist for two or more groups, at most one per row, and a test part of at least one and
-- fewer than all groups. In each of them no train row overlaps a test row's label span or starts
-- within the embargo after it, also when the test groups are not contiguous, provided that the
-- embargo after each row's label span ends within the int64 range.
pub cpcv_splits-IsPurged :
    (rows : List Row) (n_groups k embargo_ns : ℕ)
    → 2 ≤ n_groups
    → 1 ≤ k
    → k < n_groups
    → n_groups ≤ length rows
    → All (IsInRange embargo_ns) rows
    → (splits : List (List Indexed × List Indexed)) × (cpcv_splits rows n_groups k embargo_ns
        ≡ ok splits)
      × All (IsPurged embargo_ns) splits
unfolding cpcv_splits
cpcv_splits-IsPurged rows n k e two one few enough w = (
  map (split rows n e) (combinations (range_from 0 n) k),
  rw (le→ltb-false n 2 two, le→leb 1 k one, lt→ltb k n few, le→ltb-false (length rows) n enough)
      refl,
  splits-IsPurged rows n e (combinations (range_from 0 n) k) w,
)
