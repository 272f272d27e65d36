-- ===== src/Bars/Schedule/Laws.antt =====
-- bars/clock.py, class ThresholdSchedule: `record_day` beside `threshold_for`.
use Prim.Native.String.{String}
use jepa_btc_forecasting.Prelude.{
  ℕ, ◌≤◌, ◌<◌, ◌≡◌, refl, ap, sym, ◌∙◌, Bool, true, false, ◌&&◌, Option, some, List, [], ◌∷◌, ◌++◌,
  map, ltb, ◌==◌, ok, filter, any, any-append, append_assoc, Bool-cases, ltb→lt, ltb-false→le, inl,
  inr, ◌≢◌, arith, filter-append, append-nil,
}
use jepa_btc_forecasting.Prelude.Float.{Float}
use jepa_btc_forecasting.Prelude.Order.{Preorder}
use jepa_btc_forecasting.Prelude.Sort.{insert, sort}
use jepa_btc_forecasting.Prelude.Sort.Laws.{filter-sort}
use jepa_btc_forecasting.Prelude.Sort.Batches.{insert_comm}
use jepa_btc_forecasting.Bars.Schedule.{
  ThresholdSchedule, DayVolume, by_date, qualifies, normalized, threshold_on, record_day,
  threshold_for,
}

module _ (fl : Float) where
  open fl use {F, of_ℕ, div, sum, lt, le, is_finite}

  date_order : Preorder (DayVolume F)
  date_order = record {
    le = by_date fl;
    total = λ a b h. ground arith;
    trans = λ a b c h k. ground arith;
  }

  not_prior :
      (s : ThresholdSchedule F) (v : DayVolume F) (d : ℕ)
      → d ≤ v.date
      → qualifies fl s.config d v ≡ false
  not_prior s v d h = ground arith

  normalized_append :
      (s : ThresholdSchedule F) (v : DayVolume F) (d : ℕ)
      → d ≤ v.date
      → normalized fl (record s { history = s.history ++ v ∷ [] }) d ≡ normalized fl s d
  unfolding normalized date_order
  normalized_append s v d h =
      let p = qualifies fl s.config d in
      ap (map (λ w. div w.notional w.coverage)) (
        filter-sort date_order p (s.history ++ v ∷ [])
        ∙ ap (sort (by_date fl)) (
            filter-append p s.history (v ∷ [])
            ∙ rw (not_prior s v d h) (append-nil (filter p s.history)))
        ∙ sym (filter-sort date_order p s.history))

  -- The entry that a recorded day becomes.
  abbrev pub entry : ℕ → F → F → DayVolume F
  entry d n c = record { date = d; notional = n; coverage = c }

  sort_swap :
      (a b : DayVolume F) (h : List (DayVolume F))
      → a.date < b.date
      → sort (by_date fl) (h ++ a ∷ b ∷ []) ≡ sort (by_date fl) (h ++ b ∷ a ∷ [])
  unfolding sort date_order
  sort_swap a b [] lt = insert_comm date_order a b [] (ground arith)
  sort_swap a b (x ∷ h) lt = ap (insert (by_date fl) x) (sort_swap a b h lt)

  sort_swap_ne :
      (a b : DayVolume F) (h : List (DayVolume F))
      → a.date ≢ b.date
      → sort (by_date fl) (h ++ a ∷ b ∷ []) ≡ sort (by_date fl) (h ++ b ∷ a ∷ [])
  sort_swap_ne a b h ne = elim (Bool-cases (ltb a.date b.date)) [
    | inl lt ↦ sort_swap a b h (ltb→lt _ _ lt)
    | inr ge ↦ sym (sort_swap b a h (omega (arith, ltb-false→le a.date b.date ge)))
  ]

  threshold_on-append :
      (s : ThresholdSchedule F) (v : DayVolume F) (day : String) (d : ℕ)
      → d ≤ v.date
      → threshold_on fl (record s { history = s.history ++ v ∷ [] }) day d ≡ threshold_on fl s day d
  unfolding threshold_on
  threshold_on-append s v day d h = rw (normalized_append s v d h)

  threshold_on-swap :
      (s : ThresholdSchedule F) (u v : DayVolume F) (day : String) (d : ℕ)
      → sort (by_date fl) (s.history ++ u ∷ v ∷ []) ≡ sort (by_date fl) (s.history ++ v ∷ u ∷ [])
      → threshold_on fl (record s { history = s.history ++ u ∷ v ∷ [] }) day d
        ≡ threshold_on fl (record s { history = s.history ++ v ∷ u ∷ [] }) day d
  unfolding threshold_on normalized
  threshold_on-swap s u v day d h = rw h

  -- The entry's date is in the history.
  abbrev pub is_recorded : List (DayVolume F) → ℕ → Bool
  is_recorded h d = any (λ v. v.date == d) h

  abbrev pub is_volume : F → F → Bool
  is_volume n c = is_finite n && le (of_ℕ 0) n && (lt (of_ℕ 0) c && le c (of_ℕ 1))

  module _ (from_iso : String → Option ℕ) where
    -- What `record_day` asks for, and what it adds.
    pub record_day-inversion :
        (s s' : ThresholdSchedule F) (day : String) (n c : F) (d : ℕ)
        → from_iso day ≡ some d
        → record_day fl from_iso s day n c ≡ ok s'
        → (s' ≡ record s { history = s.history ++ entry d n c ∷ [] })
          × (is_recorded s.history d ≡ false)
          × (is_volume n c ≡ true)
    unfolding record_day
    record_day-inversion s s' day n c d e h = ground arith

    pub record_day-accepts :
        (s : ThresholdSchedule F) (day : String) (n c : F) (d : ℕ)
        → from_iso day ≡ some d
        → is_recorded s.history d ≡ false
        → is_volume n c ≡ true
        → record_day fl from_iso s day n c
          ≡ ok (record s { history = s.history ++ entry d n c ∷ [] })
    unfolding record_day
    record_day-accepts s day n c d e h k = ground arith

    threshold_for-eq :
        (s : ThresholdSchedule F) (day : String) (d : ℕ)
        → from_iso day ≡ some d
        → threshold_for fl from_iso s day ≡ ok (threshold_on fl s day d)
    unfolding threshold_for
    threshold_for-eq s day d e = rw e refl

    -- Recording a day does not change the threshold of that day or of any earlier one.
    pub threshold_for-record_day :
        (s s' : ThresholdSchedule F) (day later : String) (n c : F) (d e : ℕ)
        → from_iso day ≡ some d
        → from_iso later ≡ some e
        → d ≤ e
        → record_day fl from_iso s later n c ≡ ok s'
        → threshold_for fl from_iso s' day ≡ threshold_for fl from_iso s day
    threshold_for-record_day s s' day later n c d e at_d at_e h done =
        let added = (record_day-inversion s s' later n c e at_e done).0 in
        threshold_for-eq s' day d at_d
        ∙ ap ok
            (ap (λ x. threshold_on fl x day d) added ∙ threshold_on-append s (entry e n c) day d h)
        ∙ sym (threshold_for-eq s day d at_d)

    -- Two days can be recorded in either order: where one order succeeds so does the other, and
    -- every later threshold is the same.
    pub threshold_for-record_day_comm :
        (s sa sab : ThresholdSchedule F) (day_a day_b day : String) (na ca nb cb : F) (a b d : ℕ)
        → from_iso day_a ≡ some a
        → from_iso day_b ≡ some b
        → from_iso day ≡ some d
        → record_day fl from_iso s day_a na ca ≡ ok sa
        → record_day fl from_iso sa day_b nb cb ≡ ok sab
        → (sb : ThresholdSchedule F) × (sba : ThresholdSchedule F) × (record_day fl from_iso s day_b
              nb cb
            ≡ ok sb)
          × (record_day fl from_iso sb day_a na ca ≡ ok sba)
          × (threshold_for fl from_iso sba day ≡ threshold_for fl from_iso sab day)
    threshold_for-record_day_comm s sa sab day_a day_b day na ca nb cb a b d at_a at_b at_d ha hb =
        let first = record_day-inversion s sa day_a na ca a at_a ha in
        let second = record_day-inversion sa sab day_b nb cb b at_b hb in
        let u = entry a na ca in
        let v = entry b nb cb in
        let sb = record s { history = s.history ++ v ∷ [] } in
        let sba = record s { history = (s.history ++ v ∷ []) ++ u ∷ [] } in
        let apart =
          ap (λ (x : ThresholdSchedule F). is_recorded x.history b) (sym first.0) ∙ second.1 in
        let parts = any-append (λ (w : DayVolume F). w.date == b) s.history (u ∷ []) in
        let parts' = any-append (λ (w : DayVolume F). w.date == a) s.history (v ∷ []) in
        (
          sb,
          sba,
          record_day-accepts s day_b nb cb b at_b (ground arith) second.2,
          record_day-accepts sb day_a na ca a at_a (ground arith) first.2,
          threshold_for-eq sba day d at_d
              ∙ ap ok (
                  ap (λ h. threshold_on fl (record s { history = h }) day d)
                    (append_assoc s.history (v ∷ []) (u ∷ []))
                  ∙ threshold_on-swap s v u day d (sort_swap_ne v u s.history (ground arith))
                  ∙ ap (λ h. threshold_on fl (record s { history = h }) day d)
                      (sym (append_assoc s.history (u ∷ []) (v ∷ [])))
                  ∙ ap (λ (x : ThresholdSchedule F). threshold_on fl x day d)
                      (sym (
                        second.0
                        ∙ ap
                            (λ (x : ThresholdSchedule F). record x {
                              history = x.history ++ v ∷ [];
                            })
                            first.0)))
              ∙ sym (threshold_for-eq sab day d at_d),
        )
