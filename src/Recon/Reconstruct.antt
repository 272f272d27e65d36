-- ===== src/Recon/Reconstruct.antt =====
-- recon/reconstruct.py: the book as of sample times and as of trades.
pub mod AsOf
pub mod Streams
pub mod AtTrades
use jepa_btc_forecasting.Prelude.{
  ℕ, Bool, true, false, Option, none, some, List, [], ◌∷◌, ◌++◌, ltb, if◌then◌else◌,
}
use jepa_btc_forecasting.Prelude.Float.{Float}
use jepa_btc_forecasting.Prelude.Sort.{sort}
use jepa_btc_forecasting.Recon.Events.{Delta, Trade, Event, delta, trade, event_le, merge_sorted}
use jepa_btc_forecasting.Recon.OrderBook.{OrderBook, Snapshot, empty_book, apply, snapshot}

-- `sample_topk_as_of` over any book `B`, events `E` and snapshots `R`.
module _ {B E R : Type 0} (snap : B → R) (step : B → E → B) (time_of : E → ℕ) where
  -- `while si < n and sample_ts[si] < t`: the emitted rows, and the samples that are left.
  unfoldable pub emit_before : ℕ → List ℕ → B → List (ℕ × R) × List ℕ
  emit_before t [] b = ([], [])
  emit_before t (g ∷ gs) b =
      let rest = emit_before t gs b in
      if ltb g t then ((g, snap b) ∷ rest.0, rest.1) else ([], g ∷ gs)

  -- The trailing samples.
  unfoldable pub emit_all : List ℕ → B → List (ℕ × R)
  emit_all [] b = []
  emit_all (g ∷ gs) b = (g, snap b) ∷ emit_all gs b

  unfoldable pub sample_topk_as_of : List ℕ → List E → B → List (ℕ × R)
  unfolding emit_before emit_all
  sample_topk_as_of gs [] b = emit_all gs b
  sample_topk_as_of gs (ev ∷ evs) b =
      let (rows, gs') = emit_before (time_of ev) gs b in
      rows ++ sample_topk_as_of gs' evs (step b ev)

-- One row per trade: the book columns, then the trade's.
pub record TradeRow (F : Type 0) : Type 0 where
  pub book : Snapshot F
  pub taken : Trade F

-- `OrderBook() if seed is None else seed.copy()`: books here are values, so a copy is the value.
abbrev pub seeded : {F : Type 0} → Option (OrderBook F) → OrderBook F
seeded none = empty_book
seeded (some b) = b

-- `sorted(deltas, key=order_key)`
abbrev pub delta_le : {F : Type 0} → Delta F → Delta F → Bool
delta_le a b = event_le (delta a) (delta b)

module _ (fl : Float) where
  open fl use {F}

  abbrev pub applied : OrderBook F → Delta F → OrderBook F
  applied b d = (apply fl b d).1

  -- `reconstruct_book_at_samples`
  unfoldable pub reconstruct_book_at_samples :
      List (Delta F) → List ℕ → ℕ → Option (OrderBook F) → List (ℕ × Snapshot F)
  unfolding sample_topk_as_of
  reconstruct_book_at_samples deltas sample_ts k seed =
      sample_topk_as_of (snapshot fl k) applied (λ d. d.ts_engine) sample_ts (sort delta_le deltas)
        (seeded seed)

  -- One event of the replay: a delta moves the book, a trade reads it.
  unfoldable pub replay_step : ℕ → Event F → OrderBook F → List (TradeRow F) × OrderBook F
  replay_step k (delta d) b = ([], applied b d)
  replay_step k (trade t) b = (record { book = snapshot fl k b; taken = t } ∷ [], b)

  unfoldable pub replay : ℕ → List (Event F) → OrderBook F → List (TradeRow F) × OrderBook F
  unfolding replay_step
  replay k [] b = ([], b)
  replay k (ev ∷ evs) b =
      let (rows, b') = replay_step k ev b in
      let (rows', b'') = replay k evs b' in (rows ++ rows', b'')

  -- `reconstruct_book_at_trades`
  unfoldable pub reconstruct_book_at_trades :
      List (Delta F) → List (Trade F) → ℕ → Option (OrderBook F) → List (TradeRow F)
  unfolding replay merge_sorted
  reconstruct_book_at_trades deltas trades k seed =
      (replay k (merge_sorted deltas trades) (seeded seed)).0
