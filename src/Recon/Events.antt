-- ===== src/Recon/Events.antt =====
-- recon/events.py and recon/merge.py: the normalized events and their total order.
use Prim.Native.String.{String}
use jepa_btc_forecasting.Prelude.{
  ℕ, ◌≡◌, Bool, true, false, ◌&&◌, ◌||◌, List, ◌++◌, map, ltb, leb, ◌==◌, arith,
}
use jepa_btc_forecasting.Prelude.Order.{Preorder}
use jepa_btc_forecasting.Prelude.Sort.{sort}

pub data Side : Type 0 where
  bid ask : Side

pub record Delta (F : Type 0) : Type 0 where
  pub ts_engine : ℕ
  pub seq : ℕ
  pub side : Side
  pub price : F
  pub size : F

pub record Trade (F : Type 0) : Type 0 where
  pub ts_engine : ℕ
  pub seq : ℕ
  pub side : String
  pub price : F
  pub amount : F

pub data Event (F : Type 0) : Type 0 where
  delta : Delta F → Event F
  trade : Trade F → Event F

module _ {F : Type 0} where
  unfoldable pub ts_engine : Event F → ℕ
  ts_engine (delta d) = d.ts_engine
  ts_engine (trade t) = t.ts_engine

  -- `order_key`: (ts_engine, kind, seq)
  unfoldable pub order_key : Event F → ℕ × ℕ × ℕ
  order_key (delta d) = (d.ts_engine, 0, d.seq)
  order_key (trade t) = (t.ts_engine, 1, t.seq)

-- Comparison of the key triples.
abbrev pub key_le : ℕ × ℕ × ℕ → ℕ × ℕ × ℕ → Bool
key_le a b = ltb a.0 b.0 || (a.0 == b.0 && (ltb a.1 b.1 || (a.1 == b.1 && leb a.2 b.2)))

key_total : (a b : ℕ × ℕ × ℕ) → key_le a b ≡ false → key_le b a ≡ true
key_total a b h = ground arith

key_trans : (a b c : ℕ × ℕ × ℕ) → key_le a b ≡ true → key_le b c ≡ true → key_le a c ≡ true
key_trans a b c h k = ground arith

module _ {F : Type 0} where
  unfoldable pub event_le : Event F → Event F → Bool
  event_le a b = key_le (order_key a) (order_key b)

  pub event_total : (a b : Event F) → event_le a b ≡ false → event_le b a ≡ true
  unfolding event_le
  event_total a b h = key_total (order_key a) (order_key b) h

  pub event_trans :
      (a b c : Event F) → event_le a b ≡ true → event_le b c ≡ true → event_le a c ≡ true
  unfolding event_le
  event_trans a b c h k = key_trans (order_key a) (order_key b) (order_key c) h k

  abbrev pub event_order : Preorder (Event F)
  event_order = record { le = event_le; total = event_total; trans = event_trans }

  -- `merge_sorted`
  unfoldable pub merge_sorted : List (Delta F) → List (Trade F) → List (Event F)
  merge_sorted deltas trades = sort event_le (map delta deltas ++ map trade trades)
