-- ===== src/Eval/Partition/Rules.antt =====
-- eval/partition.py: the rules on one row, and the counts of a group.
use Prim.Native.String.{String}
use mathlib.Core.Path.{subst}
use text.Mathlib.Text.{◌==◌ as str_eq}
use text.Mathlib.TextEquality.{eq_iff}
use text.Mathlib.TextPositions.{eq_refl}
use jepa_btc_forecasting.Prelude.{
  ℕ, suc, ◌+◌, ◌≤◌, ◌<◌, ◌==◌, ==_iff, ◌≡◌, refl, ◌⊎◌, ap, inl, inr, Bool, true, false, ◌||◌, some,
  List, [], ◌∷◌, arith, ltb, if◌then◌else◌, Bool-cases, if-of_true, if-of_false, length, filter,
  any, All, All-map,
}
use jepa_btc_forecasting.Prelude.Int.{ℤ, pos, negsuc, pos_part, neg_part, lt_ℤ, le_ℤ}
use jepa_btc_forecasting.Eval.Ledger.{contains}
use jepa_btc_forecasting.Eval.Partition.{
  TagMap, PartitionContract, MatrixRow, tags_of, duration, distinct, pre_thresh, act_thresh,
  count_violations, has_violations, rows_of, at_duration, groups,
}

-- The row's guarded support, by its horizon and by its barrier, ends before the boundary. The lowest
-- int64 stands below every threshold that the rules compute.
pub record IsSpanSafe (lo_ns boundary_ns : ℕ) (c : PartitionContract) (r : MatrixRow) : Type 0 where
  pub ns : ℕ
  pub declared : duration r.horizon c.horizons ≡ some ns
  pub started : (neg_part r.t_event ≡ 0) × (lo_ns ≤ pos_part r.t_event)
  pub horizon_clear : pos_part r.t_event + ns + c.guard_ns < boundary_ns
  pub barrier_clear :
      (neg_part r.t_barrier ≡ 9_223_372_036_854_775_808)
      ⊎ (pos_part r.t_barrier + c.guard_ns < boundary_ns + neg_part r.t_barrier)

-- The tests of the three rules on one row.
abbrev pub IsClear : ℕ → ℕ → ℕ → ℕ → MatrixRow → Type 0
IsClear lo_ns boundary_ns ns guard r =
    (lt_ℤ r.t_event (pos lo_ns) ≡ false)
    × (le_ℤ (pre_thresh boundary_ns ns guard) r.t_event ≡ false)
    × (le_ℤ (act_thresh boundary_ns guard) r.t_barrier ≡ false)

pub started_of : (lo : ℕ) (t : ℤ) → lt_ℤ t (pos lo) ≡ false → (neg_part t ≡ 0) × (lo ≤ pos_part t)
started_of lo (pos n) h = (refl, ground arith)
started_of lo (negsuc n) h = absurd (ground arith)

pub horizon_clear_of :
    (boundary ns guard : ℕ) (t : ℤ)
    → neg_part t ≡ 0
    → le_ℤ (pre_thresh boundary ns guard) t ≡ false
    → pos_part t + ns + guard < boundary
horizon_clear_of boundary ns guard (pos n) z h = ground arith
horizon_clear_of boundary ns guard (negsuc n) z h = absurd (omega arith)

-- The int64 range bounds a barrier's time from below.
pub barrier_clear_of :
    (boundary guard : ℕ) (t : ℤ)
    → neg_part t ≤ 9_223_372_036_854_775_808
    → le_ℤ (act_thresh boundary guard) t ≡ false
    → (neg_part t ≡ 9_223_372_036_854_775_808) ⊎ (pos_part t + guard < boundary + neg_part t)
barrier_clear_of boundary guard (pos n) le h = inr (ground arith)
barrier_clear_of boundary guard (negsuc m) le h =
    elim (Bool-cases (suc m == 9_223_372_036_854_775_808)) [
      | inl lowest ↦ inl ((==_iff _ _).0 lowest)
      | inr above ↦ inr (ground arith)
    ]

-- A count of none.
pub none_counted :
    (p q : MatrixRow → Bool) (rows : List MatrixRow)
    → ltb 0 (length (filter p (filter q rows))) ≡ false
    → All (λ r. q r ≡ true → p r ≡ false) rows
none_counted p q [] h = tt
none_counted p q (r ∷ rows) h = elim (Bool-cases (q r)) [
  | inr out ↦ (
    λ k. cc,
    none_counted p q rows (
        subst
          (λ b. ltb 0 (length (filter p (if b then r ∷ filter q rows else filter q rows))) ≡ false)
          out h),
  )
  | inl inside ↦
      let h1 =
        subst
          (λ b. ltb 0 (length (filter p (if b then r ∷ filter q rows else filter q rows))) ≡ false)
          inside h in
      elim (Bool-cases (p r)) [
        | inl counted ↦ absurd (ground (arith, h1, counted))
        | inr free ↦ (
          λ k. free,
          none_counted p q rows (
              subst
                (λ b.
                  ltb 0
                    (length (if b then r ∷ filter p (filter q rows) else filter p (filter q rows)))
                  ≡ false)
                free h1),
        )
      ]
]

pub no_groups :
    (lo boundary : ℕ) (c : PartitionContract) (rows : List MatrixRow) (tags : List String)
    → groups lo boundary c rows tags ≡ []
    → All
        (λ tag.
          has_violations (
            count_violations lo boundary
              (at_duration (duration tag c.horizons))
              c.guard_ns
              (rows_of tag rows))
          ≡ false)
        tags
unfolding groups
no_groups lo boundary c rows [] h = tt
no_groups lo boundary c rows (tag ∷ tags) h =
    elim (Bool-cases (
      has_violations (
        count_violations lo boundary (at_duration (duration tag c.horizons)) c.guard_ns
          (rows_of tag rows)))) [
            | inl bad ↦ absurd (ground (arith, if-of_true _ _ _ bad h))
            | inr fine ↦ (fine, no_groups lo boundary c rows tags (if-of_false _ _ _ fine h))
          ]

distinct-there :
    (r : MatrixRow) (rows : List MatrixRow)
    → contains (distinct rows) r.horizon ≡ true
    → distinct rows ≡ distinct (r ∷ rows)
unfolding distinct
distinct-there r rows h = rw h refl

distinct-fresh :
    (r : MatrixRow) (rows : List MatrixRow)
    → contains (distinct rows) r.horizon ≡ false
    → r.horizon ∷ distinct rows ≡ distinct (r ∷ rows)
unfolding distinct
distinct-fresh r rows h = rw h refl

-- Every row's tag is among the groups.
pub contains-distinct :
    (rows : List MatrixRow) → All (λ r. contains (distinct rows) r.horizon ≡ true) rows
contains-distinct [] = tt
contains-distinct (r ∷ rows) = elim (Bool-cases (contains (distinct rows) r.horizon)) [
  | inl there ↦
      subst (λ tags. All (λ x. contains tags x.horizon ≡ true) (r ∷ rows))
        (distinct-there r rows there) (there, contains-distinct rows)
  | inr fresh ↦
      subst (λ tags. All (λ x. contains tags x.horizon ≡ true) (r ∷ rows))
        (distinct-fresh r rows fresh)
        (
          unfold contains in rw (eq_refl r.horizon) refl,
          All-map _ _ (λ x k. more x k) rows (contains-distinct rows),
        )
]
  where
    more :
        (x : MatrixRow)
        → contains (distinct rows) x.horizon ≡ true
        → contains (r.horizon ∷ distinct rows) x.horizon ≡ true
    more x k = unfold contains in ground (arith, k)

pub contains-any : (tags : List String) (x : String) → contains tags x ≡ any (λ y. str_eq y x) tags
unfolding contains
contains-any [] x = refl
contains-any (y ∷ ys) x = ap (λ b. str_eq y x || b) (contains-any ys x)

-- What holds of all elements holds of one that is among them.
pub All-any :
    (P : String → Type 0) (x : String) (tags : List String)
    → All P tags
    → any (λ y. str_eq y x) tags ≡ true
    → P x
All-any P x [] h k = absurd (cc)
All-any P x (y ∷ ys) h k = elim (Bool-cases (str_eq y x)) [
  | inl same ↦ subst P ((eq_iff y x).0 same) h.0
  | inr other ↦ All-any P x ys h.1 (ground (arith, k, other))
]

pub All-diag :
    (Q : MatrixRow → MatrixRow → Type 0) (rows : List MatrixRow)
    → All (λ r. All (Q r) rows) rows
    → All (λ r. Q r r) rows
All-diag Q [] h = tt
All-diag Q (r ∷ rows) h = (h.0.0, All-diag Q rows (All-map _ _ (λ x k. k.1) rows h.1))

pub declared-duration :
    (tag : String) (m : TagMap)
    → contains (tags_of m) tag ≡ true
    → (ns : ℕ) × (duration tag m ≡ some ns)
unfolding contains duration
declared-duration tag [] h = absurd (cc)
declared-duration tag ((k, ns) ∷ m) h = elim (Bool-cases (str_eq k tag)) [
  | inl same ↦ (ns, rw same refl)
  | inr other ↦ let (n, e) = declared-duration tag m (ground (arith, h, other)) in (n, rw other e)
]

-- The tests on a safe row.
lt-false_of : (lo : ℕ) (t : ℤ) → neg_part t ≡ 0 → lo ≤ pos_part t → lt_ℤ t (pos lo) ≡ false
lt-false_of lo (pos n) z h = ground arith
lt-false_of lo (negsuc n) z h = absurd (omega arith)

wide-false_of :
    (boundary ns guard : ℕ) (t : ℤ)
    → pos_part t + ns + guard < boundary
    → le_ℤ (pre_thresh boundary ns guard) t ≡ false
wide-false_of boundary ns guard (pos n) h = ground arith
wide-false_of boundary ns guard (negsuc n) h = ground arith

held-false_of :
    (boundary guard : ℕ) (t : ℤ)
    → (neg_part t ≡ 9_223_372_036_854_775_808) ⊎ (pos_part t + guard < boundary + neg_part t)
    → le_ℤ (act_thresh boundary guard) t ≡ false
held-false_of boundary guard (pos n) (inl e) = absurd (omega arith)
held-false_of boundary guard (pos n) (inr h) = ground arith
held-false_of boundary guard (negsuc m) (inl e) = ground arith
held-false_of boundary guard (negsuc m) (inr h) = ground arith

pub IsSpanSafe-IsClear :
    (lo boundary : ℕ) (c : PartitionContract) (r : MatrixRow)
    → IsSpanSafe lo boundary c r
    → IsClear lo boundary (at_duration (duration r.horizon c.horizons)) c.guard_ns r
IsSpanSafe-IsClear lo boundary c r h = rw h.declared (
  lt-false_of lo r.t_event h.started.0 h.started.1,
  wide-false_of boundary h.ns c.guard_ns r.t_event h.horizon_clear,
  held-false_of boundary c.guard_ns r.t_barrier h.barrier_clear,
)

pub counted_none :
    (p q : MatrixRow → Bool) (rows : List MatrixRow)
    → All (λ r. q r ≡ true → p r ≡ false) rows
    → filter p (filter q rows) ≡ []
counted_none p q [] h = refl
counted_none p q (r ∷ rows) h = elim (Bool-cases (q r)) [
  | inr out ↦ rw out (counted_none p q rows h.1)
  | inl inside ↦ rw inside (rw (h.0 inside) (counted_none p q rows h.1))
]

pub duration-declared :
    (tag : String) (m : TagMap) (ns : ℕ)
    → duration tag m ≡ some ns
    → contains (tags_of m) tag ≡ true
unfolding contains duration
duration-declared tag [] ns h = absurd (cc)
duration-declared tag ((k, n) ∷ m) ns h = elim (Bool-cases (str_eq k tag)) [
  | inl same ↦ rw same refl
  | inr other ↦ rw other (duration-declared tag m ns (if-of_false _ _ _ other h))
]
