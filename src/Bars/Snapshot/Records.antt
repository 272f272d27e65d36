-- ===== src/Bars/Snapshot/Records.antt =====
-- bars/snapshot.py: the events, reads, rejections and the local variables of the sampler.
use Prim.Native.String.{String}
use text.Mathlib.Text.{◌==◌ as str_eq}
use jepa_btc_forecasting.Prelude.{ℕ, Bool, ◌&&◌, ◌||◌, Option, List, ltb, leb, ◌==◌, if◌then◌else◌}
use jepa_btc_forecasting.Recon.Events.{Side, bid, ask, Delta}
use jepa_btc_forecasting.Recon.OrderBook.{OrderBook}

pub record BookDelta (F : Type 0) : Type 0 where
  pub origin_time : ℕ
  pub received_time : ℕ
  pub seq : ℕ
  pub side : String
  pub price : F
  pub size : F

-- An optional field is one that the source reads off a method or a dictionary of the book.
pub record ObservableBookRead (F : Type 0) : Type 0 where
  pub target_read_ts : ℕ
  pub mid : Option F
  pub microprice : Option F
  pub best_bid : Option F
  pub best_ask : Option F
  pub best_bid_size : Option F
  pub best_ask_size : Option F
  pub bid_prices : List F
  pub bid_sizes : List (Option F)
  pub ask_prices : List F
  pub ask_sizes : List (Option F)

pub record LabelBookRead (F : Type 0) : Type 0 where
  pub label_cut_ts : ℕ
  pub mid : Option F
  pub microprice : Option F

pub record BarBookReads (F : Type 0) : Type 0 where
  pub t_event : ℕ
  pub observable : ObservableBookRead F
  pub label : LabelBookRead F

pub data Reason : Type 0 where
  missing_book one_sided_book invalid_book crossed_book stale_book : Reason

pub data Role : Type 0 where
  observable_role label_role : Role

pub record SnapshotRejection : Type 0 where
  pub t_event : ℕ
  pub role : Role
  pub reason : Reason

pub data BookRow (F : Type 0) : Type 0 where
  reads : BarBookReads F → BookRow F
  rejection : SnapshotRejection → BookRow F

pub data SnapshotError : Type 0 where
  bad_side bad_price bad_size receipt_before_origin bad_top_k t_event_not_increasing out_of_order :
      SnapshotError

-- (origin_time, seq, position)
abbrev pub FoldKey : Type 0
FoldKey = ℕ × ℕ × ℕ

abbrev pub key_lt : ℕ × ℕ → ℕ × ℕ → Bool
key_lt a b = ltb a.0 b.0 || (a.0 == b.0 && ltb a.1 b.1)

abbrev pub fold_key_lt : FoldKey → FoldKey → Bool
fold_key_lt a b = ltb a.0 b.0 || (a.0 == b.0 && (ltb a.1 b.1 || (a.1 == b.1 && ltb a.2 b.2)))

abbrev pub book_order_key : {F : Type 0} → BookDelta F → ℕ × ℕ
book_order_key e = (e.origin_time, e.seq)

-- An entry of the heap: the event with the position at which it was read.
pub record Pending (F : Type 0) : Type 0 where
  pub position : ℕ
  pub event : BookDelta F

-- The order of the heap: (received_time, position).
abbrev pub pending_le : {F : Type 0} → Pending F → Pending F → Bool
pending_le a b =
    ltb a.event.received_time b.event.received_time
    || (a.event.received_time == b.event.received_time && leb a.position b.position)

abbrev pub fold_key : {F : Type 0} → Pending F → FoldKey
fold_key p = (p.event.origin_time, p.event.seq, p.position)

-- The test on a side that `OrderBook.apply` makes.
abbrev pub side_of : {F : Type 0} → BookDelta F → Side
side_of e = if str_eq e.side "bid" then bid else ask

abbrev pub to_delta : {F : Type 0} → BookDelta F → Delta F
to_delta e = record {
  ts_engine = e.origin_time;
  seq = e.seq;
  side = side_of e;
  price = e.price;
  size = e.size;
}

-- An entry of the dictionary of level keys: a level and the key last applied to it.
pub record LevelKey (F : Type 0) : Type 0 where
  pub side : Side
  pub price : F
  pub key : FoldKey

-- The local variables of the generator. The lookahead is the head of the events that are left.
pub record Sampler (F : Type 0) : Type 0 where
  pub events : List (BookDelta F)
  pub label_book : OrderBook F
  pub obs_book : OrderBook F
  pub level_keys : List (LevelKey F)
  pub pending : List (Pending F)
  pub last_event_key : Option (ℕ × ℕ)
  pub position : ℕ
  pub obs_last_key : Option FoldKey
  pub prev_t : Option ℕ
