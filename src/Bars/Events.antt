-- ===== src/Bars/Events.antt =====
-- bars/events.py: the event record of the clock and its accumulation order.
use jepa_btc_forecasting.Prelude.{ℕ, ◌≡◌, Bool, true, false, ◌&&◌, ◌||◌, arith, ltb, leb, ◌==◌}
use jepa_btc_forecasting.Prelude.Order.{Preorder}
use Prim.Native.String.{String}

-- Nanoseconds since the epoch are natural numbers; `F` is the type of floats.
pub record ClockTrade (F : Type 0) : Type 0 where
  pub origin_time : ℕ
  pub received_time : ℕ
  pub seq : ℕ
  pub side : String
  pub price : F
  pub amount : F

abbrev pub min_absolute_ns : ℕ
min_absolute_ns = 1_000_000_000_000_000_000

module _ {F : Type 0} where
  -- `clock_order_key(t)`
  abbrev pub clock_order_key : ClockTrade F → ℕ × ℕ
  clock_order_key t = (t.origin_time, t.seq)

-- Comparison of the key tuples.
abbrev pub key_lt : ℕ × ℕ → ℕ × ℕ → Bool
key_lt a b = ltb a.0 b.0 || (a.0 == b.0 && ltb a.1 b.1)

abbrev pub key_le : ℕ × ℕ → ℕ × ℕ → Bool
key_le a b = ltb a.0 b.0 || (a.0 == b.0 && leb a.1 b.1)

abbrev pub key_eq : ℕ × ℕ → ℕ × ℕ → Bool
key_eq a b = a.0 == b.0 && a.1 == b.1

key_total : (a b : ℕ × ℕ) → key_le a b ≡ false → key_le b a ≡ true
key_total a b h = ground arith

key_trans : (a b c : ℕ × ℕ) → key_le a b ≡ true → key_le b c ≡ true → key_le a c ≡ true
key_trans a b c h k = ground arith

module _ {F : Type 0} where
  unfoldable pub trade_le : ClockTrade F → ClockTrade F → Bool
  trade_le a b = key_le (clock_order_key a) (clock_order_key b)

  pub trade_total : (a b : ClockTrade F) → trade_le a b ≡ false → trade_le b a ≡ true
  unfolding trade_le
  trade_total a b h = key_total (clock_order_key a) (clock_order_key b) h

  pub trade_trans :
      (a b c : ClockTrade F) → trade_le a b ≡ true → trade_le b c ≡ true → trade_le a c ≡ true
  unfolding trade_le
  trade_trans a b c h k = key_trans (clock_order_key a) (clock_order_key b) (clock_order_key c) h k

  abbrev pub trade_order : Preorder (ClockTrade F)
  trade_order = record { le = trade_le; total = trade_total; trans = trade_trans }
