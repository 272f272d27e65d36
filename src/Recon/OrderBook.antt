-- ===== src/Recon/OrderBook.antt =====
-- recon/orderbook.py: the order-book state machine. A side is a dictionary from price to size, here
-- an association list in insertion order.
pub mod Levels
pub mod Best
pub mod Same
use jepa_btc_forecasting.Prelude.{
  ℕ, zero, suc, Bool, true, false, Option, none, some, List, [], ◌∷◌, map, ltb, if◌then◌else◌,
}
use jepa_btc_forecasting.Prelude.Float.{Float}
use jepa_btc_forecasting.Prelude.Sort.{sort}
use jepa_btc_forecasting.Recon.Events.{Side, bid, ask, Delta}

abbrev pub Levels : Type 0 → Type 0
Levels F = List (F × F)

pub record OrderBook (F : Type 0) : Type 0 where
  pub bids : Levels F
  pub asks : Levels F
  pub last_seq : Option ℕ

-- One row of top-of-book columns; `none` is the NaN of a missing level.
pub record LevelRow (F : Type 0) : Type 0 where
  pub bid_price : Option F
  pub bid_size : Option F
  pub ask_price : Option F
  pub ask_size : Option F

pub record Snapshot (F : Type 0) : Type 0 where
  pub mid : Option F
  pub microprice : Option F
  pub levels : List (LevelRow F)

abbrev pub empty_book : {F : Type 0} → OrderBook F
empty_book = record { bids = []; asks = []; last_seq = none }

module _ (fl : Float) where
  open fl use {F, of_ℕ, add, mul, div, eq, lt, le}

  -- d.get(p)
  unfoldable pub level : F → Levels F → Option F
  level p [] = none
  level p ((q, s) ∷ l) = let rest = level p l in if eq q p then some s else rest

  -- d[p] = s
  unfoldable pub put : F → F → Levels F → Levels F
  put p s [] = (p, s) ∷ []
  put p s ((q, r) ∷ l) = let rest = put p s l in if eq q p then (q, s) ∷ l else (q, r) ∷ rest

  -- d.pop(p, None)
  unfoldable pub pop : F → Levels F → Levels F
  pop p [] = []
  pop p ((q, r) ∷ l) = let rest = pop p l in if eq q p then l else (q, r) ∷ rest

  -- The write of `apply` to one side.
  unfoldable pub write : F → F → Levels F → Levels F
  unfolding put pop
  write p s l = if eq s (of_ℕ 0) then pop p l else put p s l

  abbrev pub in_sequence : Option ℕ → ℕ → Bool
  in_sequence none seq = true
  in_sequence (some last) seq = ltb last seq

  unfoldable pub apply_side : Side → Delta F → OrderBook F → OrderBook F
  unfolding write
  apply_side bid d b = record b { bids = write d.price d.size b.bids; last_seq = some d.seq }
  apply_side ask d b = record b { asks = write d.price d.size b.asks; last_seq = some d.seq }

  -- `apply`
  unfoldable pub apply : OrderBook F → Delta F → Bool × OrderBook F
  unfolding apply_side
  apply b d = (in_sequence b.last_seq d.seq, apply_side d.side d b)

  -- The dict comprehension `{p: s for p, s in levels}`.
  unfoldable pub put_all : Levels F → Levels F → Levels F
  unfolding put
  put_all [] l = l
  put_all ((p, s) ∷ ls) l = put_all ls (put p s l)

  -- `reseed`
  unfoldable pub reseed : Levels F → Levels F → OrderBook F → OrderBook F
  unfolding put_all
  reseed bids asks b = record { bids = put_all bids []; asks = put_all asks []; last_seq = none }

  abbrev pub prices : Levels F → List F
  prices = map (λ l. l.0)

  -- `max(xs)` and `min(xs)` of a dict's keys
  unfoldable pub max_from : F → List F → F
  max_from m [] = m
  max_from m (x ∷ xs) = max_from (if lt m x then x else m) xs

  unfoldable pub min_from : F → List F → F
  min_from m [] = m
  min_from m (x ∷ xs) = min_from (if lt x m then x else m) xs

  unfoldable pub best : (F → List F → F) → List F → Option F
  best pick [] = none
  best pick (x ∷ xs) = some (pick x xs)

  unfoldable pub best_bid : OrderBook F → Option F
  unfolding best max_from
  best_bid b = best max_from (prices b.bids)

  unfoldable pub best_ask : OrderBook F → Option F
  unfolding best min_from
  best_ask b = best min_from (prices b.asks)

  abbrev pub half_sum : Option F → Option F → Option F
  half_sum (some bb) (some ba) = some (div (add bb ba) (of_ℕ 2))
  half_sum _ _ = none

  unfoldable pub mid : OrderBook F → Option F
  unfolding best_bid best_ask
  mid b = half_sum (best_bid b) (best_ask b)

  -- (as * bb + bs * ba) / (bs + as). Sizes are taken to be positive (they are absolute, and a zero
  -- removes the level), so that the ZeroDivisionError of a sum of zero has no counterpart.
  abbrev pub weighted : F → F → F → F → F
  weighted bb ba bs as' = div (add (mul as' bb) (mul bs ba)) (add bs as')

  abbrev pub microprice_of : Option F → Option F → Levels F → Levels F → Option F
  microprice_of (some bb) (some ba) bids asks = elim (level bb bids) [
    | none ↦ none
    | some bs ↦ elim (level ba asks) [ none ↦ none | some as' ↦ some (weighted bb ba bs as') ]
  ]
  microprice_of _ _ bids asks = none

  unfoldable pub microprice : OrderBook F → Option F
  unfolding best_bid best_ask level
  microprice b = microprice_of (best_bid b) (best_ask b) b.bids b.asks

  unfoldable pub first : List F → Option F
  first [] = none
  first (x ∷ xs) = some x

  unfoldable pub nth : List F → ℕ → Option F
  nth [] i = none
  nth (x ∷ xs) zero = some x
  nth (x ∷ xs) (suc i) = nth xs i

  unfoldable pub take : ℕ → List F → List F
  take zero xs = []
  take (suc k) [] = []
  take (suc k) (x ∷ xs) = x ∷ take k xs

  -- `heapq.nlargest(k, d)` and `heapq.nsmallest(k, d)`, as documented: the sorted keys up to `k`.
  unfoldable pub nlargest : ℕ → Levels F → List F
  unfolding take
  nlargest k l = take k (sort (λ a b. le b a) (prices l))

  unfoldable pub nsmallest : ℕ → Levels F → List F
  unfolding take
  nsmallest k l = take k (sort le (prices l))

  abbrev pub size_at : Option F → Levels F → Option F
  size_at none l = none
  size_at (some p) l = level p l

  -- The loop `for i in range(k)`, from `i` on for `n` rounds.
  unfoldable pub level_rows : List F → List F → OrderBook F → ℕ → ℕ → List (LevelRow F)
  unfolding nth level
  level_rows bids asks b i zero = []
  level_rows bids asks b i (suc n) =
      record {
        bid_price = nth bids i;
        bid_size = size_at (nth bids i) b.bids;
        ask_price = nth asks i;
        ask_size = size_at (nth asks i) b.asks;
      }
      ∷ level_rows bids asks b (suc i) n

  -- `snapshot`
  unfoldable pub snapshot : ℕ → OrderBook F → Snapshot F
  unfolding nlargest nsmallest first level_rows level
  snapshot k b =
      let bids = nlargest k b.bids in
      let asks = nsmallest k b.asks in
      record {
        mid = half_sum (first bids) (first asks);
        microprice = microprice_of (first bids) (first asks) b.bids b.asks;
        levels = level_rows bids asks b 0 k;
      }
