-- ===== src/Recon/Live/Batches.antt =====
-- recon/live.py: the batches that the watermark releases.
use jepa_btc_forecasting.Prelude.{
  ℕ, ◌+◌, ◌<◌, ◌≡◌, refl, sym, ap, ◌∙◌, inl, inr, Bool, true, false, not, Option, none, some, List,
  [], ◌∷◌, ◌++◌, arith, Bool-cases, leb→le, leb-false→lt, filter, filter-append, append-nil,
  filter-filter_sub, filter_comm, le→leb,
}
use mathlib.Core.Path.{ap₂}
use jepa_btc_forecasting.Prelude.Sort.{sort}
use jepa_btc_forecasting.Prelude.Sort.Batches.{Before, sort_batches}
use jepa_btc_forecasting.Recon.Events.{
  Event, delta, trade, ts_engine, order_key, event_le, event_order,
}
use jepa_btc_forecasting.Recon.Live.{behind, is_late, advance}

module _ {F : Type 0} where
  -- What has been released when the newest time is `m`: nothing before the first event.
  abbrev pub released : ℕ → Option ℕ → Event F → Bool
  released = is_late

  earlier-Before : (a b : Event F) → ts_engine a < ts_engine b → Before event_order a b
  unfolding event_le order_key ts_engine
  earlier-Before (delta a) (delta b) h = ground arith
  earlier-Before (delta a) (trade b) h = ground arith
  earlier-Before (trade a) (delta b) h = ground arith
  earlier-Before (trade a) (trade b) h = ground arith

  released-Before :
      (w : ℕ) (m : Option ℕ) (a b : Event F)
      → released w m a ≡ true
      → released w m b ≡ false
      → Before event_order a b
  released-Before w none a b h k = absurd (cc)
  released-Before w (some m) a b h k =
      earlier-Before a b
        (omega (arith, leb→le (ts_engine a + w) m h, leb-false→lt (ts_engine b + w) m k))

  -- The sort of the released events, then of the others, is the sort.
  pub sort-released :
      (w : ℕ) (m : Option ℕ) (es : List (Event F))
      → sort event_le (filter (released w m) es)
          ++ sort event_le (filter (λ e. not (released w m e)) es)
        ≡ sort event_le es
  sort-released w m es = sym (sort_batches event_order (released w m) (released-Before w m) es)

  -- Time only moves on: what was released stays released.
  released_mono :
      (w : ℕ) (m : Option ℕ) (e a : Event F)
      → released w m a ≡ true
      → behind w (advance m e) a ≡ true
  released_mono w none e a h = absurd (cc)
  released_mono w (some m) e a h = le→leb _ _ (omega (arith, leb→le (ts_engine a + w) m h))

  -- A new event that is not late adds one batch to what has been released.
  pub sort_next :
      (w : ℕ) (m : Option ℕ) (e : Event F) (es : List (Event F))
      → released w m e ≡ false
      → sort event_le (filter (released w m) es)
          ++ sort event_le
              (filter (behind w (advance m e)) (filter (λ a. not (released w m a)) es ++ e ∷ []))
        ≡ sort event_le (filter (behind w (advance m e)) (es ++ e ∷ []))
  sort_next w m e es late =
      let old = released w m in
      let young = λ (a : Event F). not (released w m a) in
      let now = behind w (advance m e) in
      ap₂ (λ a b. sort event_le a ++ sort event_le b)
        (sym (
          filter-filter_sub old now (es ++ e ∷ []) (released_mono w m e)
          ∙ filter-append old es (e ∷ [])
          ∙ rw late (append-nil (filter old es))))
        (sym (
          filter_comm young now (es ++ e ∷ [])
          ∙ ap (filter now) (filter-append young es (e ∷ []) ∙ rw late refl)))
      ∙ sort-released w m (filter now (es ++ e ∷ []))

  -- What stays in the buffer after that batch.
  pub young_next :
      (w : ℕ) (m : Option ℕ) (e : Event F) (es : List (Event F))
      → released w m e ≡ false
      → filter
          (λ a. not (behind w (advance m e) a))
          (filter (λ a. not (released w m a)) es ++ e ∷ [])
        ≡ filter (λ a. not (behind w (advance m e) a)) (es ++ e ∷ [])
  young_next w m e es late =
      let young = λ (a : Event F). not (released w m a) in
      let later = λ (a : Event F). not (behind w (advance m e) a) in
      ap (filter later) (sym (filter-append young es (e ∷ []) ∙ rw late refl))
      ∙ filter-filter_sub later young (es ++ e ∷ []) (λ a h. stays a h)
    where
      stays : (a : Event F) → not (behind w (advance m e) a) ≡ true → not (released w m a) ≡ true
      stays a h = elim (Bool-cases (released w m a)) [
        | inl old ↦ absurd (ground (arith, released_mono w m e a old))
        | inr new ↦ rw new refl
      ]
