-- ===== src/Recon/Reconstruct/AtTrades.antt =====
-- recon/reconstruct.py, `reconstruct_book_at_trades` beside the book as of each trade.
use jepa_btc_forecasting.Prelude.{
  ℕ, ◌≤◌, ◌<◌, ◌≡◌, refl, sym, ap, ◌∙◌, true, Option, List, [], ◌∷◌, ◌++◌, arith, map, leb, All,
  filter, lt→leb-false, le→leb,
}
use mathlib.Core.List.{foldl}
use mathlib.Core.Path.{ap₂}
use jepa_btc_forecasting.Prelude.Float.{Float}
use jepa_btc_forecasting.Prelude.Sort.{sort}
use jepa_btc_forecasting.Prelude.Sort.Laws.{IsSorted, sort-IsSorted}
use jepa_btc_forecasting.Recon.Events.{
  Delta, Trade, Event, delta, trade, order_key, event_le, event_order, merge_sorted,
}
use jepa_btc_forecasting.Recon.OrderBook.{OrderBook, snapshot}
use jepa_btc_forecasting.Recon.Reconstruct.{
  TradeRow, seeded, delta_le, applied, replay, reconstruct_book_at_trades,
}
use jepa_btc_forecasting.Recon.Reconstruct.Streams.{
  deltas_of, trades_of, trade_le, deltas_of-merge_sorted, trades_of-merge_sorted,
}

module _ (fl : Float) where
  open fl use {F}

  -- The book after the deltas with engine time up to `ts`, folded in order.
  abbrev pub book_at : ℕ → List (Delta F) → OrderBook F → OrderBook F
  book_at ts ds b = foldl (applied fl) b (filter (λ d. leb d.ts_engine ts) ds)

  abbrev pub row_at : ℕ → List (Delta F) → OrderBook F → Trade F → TradeRow F
  row_at k ds b t = record { book = snapshot fl k (book_at t.ts_engine ds b); taken = t }

  event_le-delta-trade :
      (d : Delta F) (t : Trade F) → event_le (delta d) (trade t) ≡ true → d.ts_engine ≤ t.ts_engine
  unfolding event_le order_key
  event_le-delta-trade d t h = ground arith

  event_le-trade-delta :
      (t : Trade F) (d : Delta F) → event_le (trade t) (delta d) ≡ true → t.ts_engine < d.ts_engine
  unfolding event_le order_key
  event_le-trade-delta t d h = ground arith

  -- A delta that is before every trade is in the book of each.
  seen_by_each :
      (k : ℕ) (d : Delta F) (ds : List (Delta F)) (es : List (Event F)) (b : OrderBook F)
      → All (λ e. event_le (delta d) e ≡ true) es
      → map (row_at k ds (applied fl b d)) (trades_of es) ≡ map (row_at k (d ∷ ds) b) (trades_of es)
  seen_by_each k d ds [] b h = refl
  seen_by_each k d ds (delta e ∷ es) b h = seen_by_each k d ds es b h.1
  seen_by_each k d ds (trade t ∷ es) b h =
      ap₂ ◌∷◌ (sym (row_cons k d ds b t (event_le-delta-trade d t h.0)))
        (seen_by_each k d ds es b h.1)
    where
      row_cons :
          (k : ℕ) (d : Delta F) (ds : List (Delta F)) (b : OrderBook F) (t : Trade F)
          → d.ts_engine ≤ t.ts_engine
          → row_at k (d ∷ ds) b t ≡ row_at k ds (applied fl b d) t
      row_cons k d ds b t le = rw (le→leb _ _ le) refl

  none_yet :
      (t : Trade F) (es : List (Event F))
      → All (λ e. event_le (trade t) e ≡ true) es
      → filter (λ d. leb d.ts_engine t.ts_engine) (deltas_of es) ≡ []
  none_yet t [] h = refl
  none_yet t (delta d ∷ es) h =
      rw (lt→leb-false _ _ (event_le-trade-delta t d h.0)) (none_yet t es h.1)
  none_yet t (trade u ∷ es) h = none_yet t es h.1

  -- The replay of an ordered event list.
  pub replay-rows :
      (k : ℕ) (es : List (Event F)) (b : OrderBook F)
      → IsSorted event_le es
      → (replay fl k es b).0 ≡ map (row_at k (deltas_of es) b) (trades_of es)
  unfolding replay
  replay-rows k [] b h = refl
  replay-rows k (delta d ∷ es) b h =
      replay-rows k es (applied fl b d) h.1 ∙ seen_by_each k d (deltas_of es) es b h.0
  replay-rows k (trade t ∷ es) b h =
      ap₂ ◌∷◌
        (ap (λ l. record { book = snapshot fl k (foldl (applied fl) b l); taken = t })
          (sym (none_yet t es h.0)))
        (replay-rows k es b h.1)

  -- Every trade gets one row, in (ts_engine, seq) order, with the book after exactly the deltas whose
  -- engine time is at most the trade's, applied in (ts_engine, seq) order to the seed.
  pub reconstruct_book_at_trades_lem :
      (ds : List (Delta F)) (ts : List (Trade F)) (k : ℕ) (seed : Option (OrderBook F))
      → reconstruct_book_at_trades fl ds ts k seed
        ≡ map (row_at k (sort delta_le ds) (seeded seed)) (sort trade_le ts)
  unfolding reconstruct_book_at_trades
  reconstruct_book_at_trades_lem ds ts k seed =
      replay-rows k (merge_sorted ds ts) (seeded seed)
        (sort-IsSorted event_order (map delta ds ++ map trade ts))
      ∙ ap₂ (λ a b. map (row_at k a (seeded seed)) b) (deltas_of-merge_sorted ds ts)
          (trades_of-merge_sorted ds ts)
