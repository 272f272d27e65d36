-- ===== src/Tests/Book.antt =====
-- recon/ at concrete streams.
use jepa_btc_forecasting.Prelude.{ℕ, ◌≡◌, refl, none, some, List, [], ◌∷◌, map, arith, length, ◌+◌}
use jepa_btc_forecasting.Prelude.Float.{whole, whole_laws}
use jepa_btc_forecasting.Prelude.Sort.{sort}
use jepa_btc_forecasting.Recon.Events.{bid, ask, Delta, Trade, Event, delta, trade, ts_engine}
use jepa_btc_forecasting.Recon.OrderBook.Best.{snapshot-mid}
use jepa_btc_forecasting.Recon.OrderBook.{
  mid, microprice, OrderBook, level, apply, reseed, snapshot,
}
use jepa_btc_forecasting.Recon.OrderBook.Levels.{IsBook, levels_of, level-apply, level-reseed}
use jepa_btc_forecasting.Recon.Reconstruct.{
  sample_topk_as_of, applied, delta_le, seeded, reconstruct_book_at_trades,
}
use jepa_btc_forecasting.Recon.Reconstruct.AsOf.{samples_as_of, sample_topk_as_of_lem}
use jepa_btc_forecasting.Recon.Reconstruct.Streams.{deltas_of, trades_of, trade_le}
use jepa_btc_forecasting.Recon.Reconstruct.AtTrades.{row_at, reconstruct_book_at_trades_lem}
use jepa_btc_forecasting.Recon.Live.{live, flush}
use jepa_btc_forecasting.Recon.Live.Equivalence.{
  accepted, push_all, live-offline, live-offline_bounded,
}

abbrev book : OrderBook ℕ
book = record { bids = (10, 3) ∷ (9, 1) ∷ []; asks = (12, 4) ∷ []; last_seq = some 6 }

book-valid : IsBook whole book
book-valid = record { bids = ((refl, tt), (tt, tt)); asks = (tt, tt) }

abbrev change : Delta ℕ
change = record { ts_engine = 5; seq = 7; side = bid; price = 10; size = 8 }

abbrev removal : Delta ℕ
removal = record { ts_engine = 9; seq = 8; side = ask; price = 12; size = 0 }

abbrev sale : Trade ℕ
sale = record { ts_engine = 7; seq = 1; side = "sell"; price = 10; amount = 2 }

level-apply_example : level whole 10 (levels_of whole bid (apply whole book change).1) ≡ some 8
level-apply_example = level-apply whole whole_laws book change bid 10 book-valid

level-reseed_example :
    (level whole 11 (reseed whole ((11, 1) ∷ (11, 2) ∷ []) [] book).bids ≡ some 2)
    × (level whole 11 (reseed whole ((11, 1) ∷ (11, 2) ∷ []) [] book).asks ≡ none)
    × ((reseed whole ((11, 1) ∷ (11, 2) ∷ []) [] book).last_seq ≡ none)
level-reseed_example = level-reseed whole whole_laws book ((11, 1) ∷ (11, 2) ∷ []) [] 11

sample_topk_as_of_example :
    sample_topk_as_of
      (snapshot whole 1)
      (applied whole)
      (λ d. d.ts_engine)
      (4 ∷ 5 ∷ 20 ∷ [])
      (change ∷ removal ∷ [])
      book
    ≡ samples_as_of
        (snapshot whole 1)
        (applied whole)
        (λ d. d.ts_engine)
        (4 ∷ 5 ∷ 20 ∷ [])
        (change ∷ removal ∷ [])
        book
sample_topk_as_of_example =
    sample_topk_as_of_lem (snapshot whole 1) (applied whole) (λ d. d.ts_engine) (4 ∷ 5 ∷ 20 ∷ [])
      (change ∷ removal ∷ []) book ((omega arith, (omega arith, tt)), ((omega arith, tt), (tt, tt)))
      ((omega arith, tt), (tt, tt))

reconstruct_book_at_trades_example :
    reconstruct_book_at_trades whole (removal ∷ change ∷ []) (sale ∷ []) 1 (some book)
    ≡ map
        (row_at whole 1 (sort delta_le (removal ∷ change ∷ [])) (seeded (some book)))
        (sort trade_le (sale ∷ []))
reconstruct_book_at_trades_example =
    reconstruct_book_at_trades_lem whole (removal ∷ change ∷ []) (sale ∷ []) 1 (some book)

-- The change arrives after the sale, displaced by two.
abbrev arrivals : List (Event ℕ)
arrivals = trade sale ∷ delta change ∷ delta removal ∷ []

live-offline_example :
    ((flush whole (push_all whole arrivals (live 1 1))).0
      ≡ reconstruct_book_at_trades whole
          (deltas_of (accepted 1 none arrivals))
          (trades_of (accepted 1 none arrivals))
          1
          none)
    × ((push_all whole arrivals (live 1 1)).late_count + length (accepted 1 none arrivals) ≡ 3)
live-offline_example = live-offline whole 1 1 arrivals

live-offline_bounded_example :
    ((flush whole (push_all whole arrivals (live 1 3))).0
      ≡ reconstruct_book_at_trades whole (deltas_of arrivals) (trades_of arrivals) 1 none)
    × ((push_all whole arrivals (live 1 3)).late_count ≡ 0)
unfolding ts_engine
live-offline_bounded_example =
    live-offline_bounded whole 1 3 arrivals
      ((omega arith, (omega arith, tt)), ((omega arith, tt), (tt, tt)))

snapshot-mid_example :
    ((snapshot whole 1 book).mid ≡ mid whole book)
    × ((snapshot whole 1 book).microprice ≡ microprice whole book)
snapshot-mid_example = snapshot-mid whole whole_laws 0 book
