-- ===== src/Recon/Live.antt =====
-- recon/live.py: the streaming reconstruction with a watermark.
pub mod Batches
pub mod Equivalence
use jepa_btc_forecasting.Prelude.{
  ℕ, ◌+◌, Bool, true, false, not, Option, none, some, List, [], ◌∷◌, ◌++◌, leb, max, filter,
  if◌then◌else◌,
}
use jepa_btc_forecasting.Prelude.Float.{Float}
use jepa_btc_forecasting.Prelude.Sort.{sort}
use jepa_btc_forecasting.Recon.Events.{Event, ts_engine, event_le}
use jepa_btc_forecasting.Recon.OrderBook.{OrderBook, empty_book}
use jepa_btc_forecasting.Recon.Reconstruct.{TradeRow, replay}

pub record LiveReconstructor (F : Type 0) : Type 0 where
  pub k : ℕ
  pub watermark_ns : ℕ
  pub late_count : ℕ
  pub buf : List (Event F)
  pub max_ts : Option ℕ
  pub ob : OrderBook F
  pub rows : List (TradeRow F)

-- `ev.ts_engine <= max_ts - watermark_ns`, a difference that may be negative.
abbrev pub behind : {F : Type 0} → ℕ → ℕ → Event F → Bool
behind watermark_ns max_ts ev = leb (ts_engine ev + watermark_ns) max_ts

abbrev pub is_late : {F : Type 0} → ℕ → Option ℕ → Event F → Bool
is_late watermark_ns none ev = false
is_late watermark_ns (some max_ts) ev = behind watermark_ns max_ts ev

abbrev pub advance : {F : Type 0} → Option ℕ → Event F → ℕ
advance none ev = ts_engine ev
advance (some max_ts) ev = max max_ts (ts_engine ev)

-- `LiveReconstructor(k, watermark_ns)`
abbrev pub live : {F : Type 0} → ℕ → ℕ → LiveReconstructor F
live k watermark_ns = record {
  k = k;
  watermark_ns = watermark_ns;
  late_count = 0;
  buf = [];
  max_ts = none;
  ob = empty_book;
  rows = [];
}

module _ (fl : Float) where
  open fl use {F}

  -- `for ev in sorted(ready): emit`: `_emit_delta` and `_emit_trade` are the steps of the replay.
  unfoldable pub emit : List (Event F) → LiveReconstructor F → LiveReconstructor F
  emit ready s =
      let (rows, ob) = replay fl s.k (sort event_le ready) s.ob in
      record s { ob = ob; rows = s.rows ++ rows }

  -- The rest of `_release`, given the ready events.
  unfoldable pub release_ready : ℕ → List (Event F) → LiveReconstructor F → LiveReconstructor F
  unfolding emit
  release_ready max_ts [] s = s
  release_ready max_ts (e ∷ es) s =
      emit (e ∷ es) (record s { buf = filter (λ ev. not (behind s.watermark_ns max_ts ev)) s.buf })

  -- `_release(max_ts - watermark_ns)`
  unfoldable pub release : ℕ → LiveReconstructor F → LiveReconstructor F
  unfolding release_ready
  release max_ts s = release_ready max_ts (filter (behind s.watermark_ns max_ts) s.buf) s

  unfoldable pub push : LiveReconstructor F → Event F → LiveReconstructor F
  unfolding release
  push s ev =
      if is_late s.watermark_ns s.max_ts ev
      then record s { late_count = s.late_count + 1 }
      else release (advance s.max_ts ev)
          (record s { max_ts = some (advance s.max_ts ev); buf = s.buf ++ ev ∷ [] })

  -- `flush`: the rows of the frame beside the state that is left.
  unfoldable pub flush : LiveReconstructor F → List (TradeRow F) × LiveReconstructor F
  unfolding emit
  flush s = let s' = emit s.buf s in (s'.rows, record s' { buf = [] })
