-- ===== src/Recon/Live/Equivalence.antt =====
-- recon/live.py beside recon/reconstruct.py.
use jepa_btc_forecasting.Prelude.{
  ℕ, ◌+◌, ◌<◌, ◌≡◌, refl, sym, ap, ◌∙◌, inl, inr, true, false, not, Option, none, some, List, [],
  ◌∷◌, ◌++◌, arith, max, if◌then◌else◌, Bool-cases, All, filter, append-nil, append_assoc,
  filter-not_of_none, length, lt→leb-false, All-zip,
}
use mathlib.Core.Path.{ap₂}
use jepa_btc_forecasting.Prelude.Float.{Float}
use jepa_btc_forecasting.Prelude.Sort.{sort}
use jepa_btc_forecasting.Recon.Events.{Event, ts_engine, event_le}
use jepa_btc_forecasting.Recon.OrderBook.{OrderBook, empty_book}
use jepa_btc_forecasting.Recon.Reconstruct.{
  TradeRow, replay, replay_step, reconstruct_book_at_trades,
}
use jepa_btc_forecasting.Recon.Reconstruct.Streams.{deltas_of, trades_of, merge_sorted-streams}
use jepa_btc_forecasting.Recon.Live.{
  LiveReconstructor, behind, is_late, advance, live, emit, release, release_ready, push, flush,
}
use jepa_btc_forecasting.Recon.Live.Batches.{released, sort-released, sort_next, young_next}

-- The arrivals that are not late, given the newest time before them.
abbrev pub accepted : {F : Type 0} → ℕ → Option ℕ → List (Event F) → List (Event F)
accepted w m [] = []
accepted w m (e ∷ es) =
    if is_late w m e then accepted w m es else e ∷ accepted w (some (advance m e)) es

module _ {F : Type 0} where
  accepted_late :
      (w : ℕ) (m : Option ℕ) (e : Event F) (es : List (Event F))
      → is_late w m e ≡ true
      → accepted w m (e ∷ es) ≡ accepted w m es
  accepted_late w m e es h = rw h refl

  accepted_timely :
      (w : ℕ) (m : Option ℕ) (e : Event F) (es : List (Event F))
      → is_late w m e ≡ false
      → accepted w m (e ∷ es) ≡ e ∷ accepted w (some (advance m e)) es
  accepted_timely w m e es h = rw h refl

module _ (fl : Float) where
  open fl use {F}

  replay-append :
      (k : ℕ) (xs ys : List (Event F)) (b : OrderBook F)
      → replay fl k (xs ++ ys) b ≡ (
        (replay fl k xs b).0 ++ (replay fl k ys (replay fl k xs b).1).0,
        (replay fl k ys (replay fl k xs b).1).1,
      )
  unfolding replay
  replay-append k [] ys b = refl
  replay-append k (e ∷ xs) ys b =
      let rows = (replay_step fl k e b).0 in
      let b' = (replay_step fl k e b).1 in
      ap (λ (r : List (TradeRow F) × OrderBook F). (rows ++ r.0, r.1)) (replay-append k xs ys b')
      ∙ ap (λ l. (l, (replay fl k ys (replay fl k xs b').1).1))
          (sym (append_assoc rows (replay fl k xs b').0 (replay fl k ys (replay fl k xs b').1).0))

  -- What a live reconstruction holds after it accepted the events `es`.
  record Holds (es : List (Event F)) (s : LiveReconstructor F) : Type 0 where
    kept : s.buf ≡ filter (λ e. not (released s.watermark_ns s.max_ts e)) es
    replayed :
        replay fl s.k (sort event_le (filter (released s.watermark_ns s.max_ts) es)) empty_book
        ≡ (s.rows, s.ob)

  -- Releasing nothing is no special case.
  release_ready-eq :
      (m : ℕ) (ready : List (Event F)) (s : LiveReconstructor F)
      → filter (behind s.watermark_ns m) s.buf ≡ ready
      → release_ready fl m ready s
        ≡ emit fl ready (record s { buf = filter (λ e. not (behind s.watermark_ns m e)) s.buf })
  unfolding release_ready emit sort replay
  release_ready-eq m [] s h =
      ap₂ (λ a b. record s { buf = a; rows = b })
        (sym (filter-not_of_none (behind s.watermark_ns m) s.buf h)) (sym (append-nil s.rows))
  release_ready-eq m (e ∷ es) s h = refl

  -- The state before the release of `push`.
  abbrev taken : LiveReconstructor F → Event F → LiveReconstructor F
  taken s e = record s { max_ts = some (advance s.max_ts e); buf = s.buf ++ e ∷ [] }

  abbrev after : LiveReconstructor F → Event F → LiveReconstructor F
  after s e =
      let now = behind s.watermark_ns (advance s.max_ts e) in
      emit fl (filter now (s.buf ++ e ∷ []))
        (record (taken s e) { buf = filter (λ a. not (now a)) (s.buf ++ e ∷ []) })

  push-eq :
      (s : LiveReconstructor F) (e : Event F)
      → is_late s.watermark_ns s.max_ts e ≡ false
      → push fl s e ≡ after s e
  unfolding push release
  push-eq s e h = rw h (release_ready-eq (advance s.max_ts e) _ (taken s e) refl)

  after-Holds :
      (s : LiveReconstructor F) (e : Event F) (es : List (Event F))
      → is_late s.watermark_ns s.max_ts e ≡ false
      → Holds es s
      → Holds (es ++ e ∷ []) (after s e)
  unfolding emit
  after-Holds s e es late h =
      let now = behind s.watermark_ns (advance s.max_ts e) in
      let old = released s.watermark_ns s.max_ts in
      let young = filter (λ (a : Event F). not (old a)) es in
      record {
        kept =
            ap (λ l. filter (λ a. not (now a)) (l ++ e ∷ [])) h.kept
            ∙ young_next s.watermark_ns s.max_ts e es late;
        replayed =
            ap (λ l. replay fl s.k l empty_book) (sym (sort_next s.watermark_ns s.max_ts e es late))
            ∙ replay-append s.k (sort event_le (filter old es))
                (sort event_le (filter now (young ++ e ∷ []))) empty_book
            ∙ ap₂
                (λ (p : List (TradeRow F) × OrderBook F) (b : List (Event F)).
                  let r = replay fl s.k (sort event_le (filter now (b ++ e ∷ []))) p.1 in
                  (p.0 ++ r.0, r.1))
                h.replayed (sym h.kept);
      }

  Holds-push :
      (s : LiveReconstructor F) (e : Event F) (es : List (Event F))
      → is_late s.watermark_ns s.max_ts e ≡ false
      → Holds es s
      → Holds (es ++ e ∷ []) (push fl s e)
  Holds-push s e es late h = rw (push-eq s e late) (after-Holds s e es late h)

  -- Feeding the arrivals one by one.
  abbrev pub push_all : List (Event F) → LiveReconstructor F → LiveReconstructor F
  push_all [] s = s
  push_all (e ∷ arrivals) s = push_all arrivals (push fl s e)

  flush-rows :
      (s : LiveReconstructor F) (es : List (Event F))
      → Holds es s
      → (flush fl s).0 ≡ (replay fl s.k (sort event_le es) empty_book).0
  unfolding flush
  flush-rows s es h = sym (
      ap (λ l. (replay fl s.k l empty_book).0) (sym (sort-released s.watermark_ns s.max_ts es))
      ∙ ap (λ (p : List (TradeRow F) × OrderBook F). p.0)
          (replay-append s.k (sort event_le (filter (released s.watermark_ns s.max_ts) es))
            (sort event_le (filter (λ e. not (released s.watermark_ns s.max_ts e)) es)) empty_book)
      ∙ ap₂
          (λ (p : List (TradeRow F) × OrderBook F) (b : List (Event F)).
            p.0 ++ (replay fl s.k (sort event_le b) p.1).0)
          h.replayed (sym h.kept))

  push_late :
      (s : LiveReconstructor F) (e : Event F)
      → is_late s.watermark_ns s.max_ts e ≡ true
      → push fl s e ≡ record s { late_count = s.late_count + 1 }
  unfolding push
  push_late s e h = rw h refl

  live_from :
      (arrivals : List (Event F)) (s : LiveReconstructor F) (es : List (Event F))
      → Holds es s
      → (flush fl (push_all arrivals s)).0
          ≡ (replay fl s.k
              (sort event_le (es ++ accepted s.watermark_ns s.max_ts arrivals))
              empty_book).0
        × ((push_all arrivals s).late_count + length (accepted s.watermark_ns s.max_ts arrivals)
            ≡ s.late_count + length arrivals)
  unfolding emit
  live_from [] s es h = (rw (append-nil es) (flush-rows s es h), refl)
  live_from (e ∷ arrivals) s es h = elim (Bool-cases (is_late s.watermark_ns s.max_ts e)) [
    | inl late ↦
        let s' = record s { late_count = s.late_count + 1 } in
        let rest = live_from arrivals s' es (record { kept = h.kept; replayed = h.replayed }) in
        let skip = accepted_late s.watermark_ns s.max_ts e arrivals late in
        let same = push_late s e late in
        (
          ap (λ x. (flush fl (push_all arrivals x)).0) same
              ∙ rest.0
              ∙ ap (λ l. (replay fl s.k (sort event_le (es ++ l)) empty_book).0) (sym skip),
          omega (arith, rest.1, ap length skip, ap (λ x. (push_all arrivals x).late_count) same),
        )
    | inr timely ↦
        let rest = live_from arrivals (after s e) (es ++ e ∷ []) (after-Holds s e es timely h) in
        let tail = accepted s.watermark_ns (some (advance s.max_ts e)) arrivals in
        let keep = accepted_timely s.watermark_ns s.max_ts e arrivals timely in
        let same = push-eq s e timely in
        (
          ap (λ x. (flush fl (push_all arrivals x)).0) same
              ∙ rest.0
              ∙ ap (λ l. (replay fl s.k (sort event_le l) empty_book).0)
                  (append_assoc es (e ∷ []) tail ∙ ap (λ l. es ++ l) (sym keep)),
          omega (arith, rest.1, ap length keep, ap (λ x. (push_all arrivals x).late_count) same),
        )
  ]

  -- Whatever the arrivals, the live rows are the offline rows of the arrivals that were not late, and
  -- every other arrival was counted as late.
  pub live-offline :
      (k w : ℕ) (arrivals : List (Event F))
      → (flush fl (push_all arrivals (live k w))).0
          ≡ reconstruct_book_at_trades fl
              (deltas_of (accepted w none arrivals))
              (trades_of (accepted w none arrivals))
              k
              none
        × ((push_all arrivals (live k w)).late_count + length (accepted w none arrivals)
            ≡ length arrivals)
  unfolding reconstruct_book_at_trades
  live-offline k w arrivals =
      let r =
        live_from arrivals (live k w) []
          (record { kept = refl; replayed = unfold sort replay in refl }) in
      (
        r.0
            ∙ ap (λ l. (replay fl k l empty_book).0)
                (sym (merge_sorted-streams (accepted w none arrivals))),
        omega (arith, r.1),
      )

-- No arrival is displaced by the watermark or more: each is later than every earlier arrival less
-- the watermark.
abbrev pub IsBounded : {F : Type 0} → ℕ → List (Event F) → Type 0
IsBounded w [] = Unit
IsBounded w (e ∷ es) = All (λ later. ts_engine e < ts_engine later + w) es × IsBounded w es

-- The newest of the times so far.
abbrev pub Newest : {F : Type 0} → ℕ → Option ℕ → List (Event F) → Type 0
Newest w none es = Unit
Newest w (some m) es = All (λ later. m < ts_engine later + w) es

module _ {F : Type 0} where
  -- A bounded stream has no late arrival.
  accepted-IsBounded :
      (w : ℕ) (m : Option ℕ) (es : List (Event F))
      → Newest w m es
      → IsBounded w es
      → accepted w m es ≡ es
  accepted-IsBounded w m [] n b = refl
  accepted-IsBounded w none (e ∷ es) n b =
      ap (◌∷◌ e) (accepted-IsBounded w (some (ts_engine e)) es b.0 b.1)
  accepted-IsBounded w (some m) (e ∷ es) n b = rw (lt→leb-false _ _ n.0) (
      ap (◌∷◌ e) (
        accepted-IsBounded w (some (max m (ts_engine e))) es
          (All-zip (λ later. m < ts_engine later + w) (λ later. ts_engine e < ts_engine later + w)
            (λ later. max m (ts_engine e) < ts_engine later + w) (λ later h k. omega arith) es n.1
            b.0)
          b.1))

module _ (fl : Float) where
  open fl use {F}

  -- If every arrival is displaced by less than the watermark, nothing is late, and the live rows are
  -- the offline reconstruction of the same deltas and trades.
  pub live-offline_bounded :
      (k w : ℕ) (arrivals : List (Event F))
      → IsBounded w arrivals
      → (flush fl (push_all fl arrivals (live k w))).0
          ≡ reconstruct_book_at_trades fl (deltas_of arrivals) (trades_of arrivals) k none
        × ((push_all fl arrivals (live k w)).late_count ≡ 0)
  live-offline_bounded k w arrivals b =
      let all = accepted-IsBounded w none arrivals tt b in
      let r = live-offline fl k w arrivals in
      (
        r.0 ∙ ap (λ l. reconstruct_book_at_trades fl (deltas_of l) (trades_of l) k none) all,
        omega (arith, r.1, ap length all),
      )
