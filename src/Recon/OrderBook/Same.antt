-- ===== src/Recon/OrderBook/Same.antt =====
-- recon/orderbook.py: two books with the same levels, in whatever order their dictionaries hold them.
use mathlib.Core.Path.{ap₂, subst}
use jepa_btc_forecasting.Prelude.{
  ℕ, ◌≡◌, refl, sym, ap, ◌∙◌, inl, inr, Bool, true, false, Option, none, some, List, [], ◌∷◌, arith,
  Bool-cases, any, All,
}
use jepa_btc_forecasting.Prelude.Float.{Float, FloatLaws}
use jepa_btc_forecasting.Prelude.Order.{Preorder}
use jepa_btc_forecasting.Prelude.Sort.{insert, sort}
use jepa_btc_forecasting.Prelude.Sort.Laws.{IsSorted, sort-IsSorted, any-sort, All-insert, All-sort}
use jepa_btc_forecasting.Recon.Events.{Side, bid, ask}
use jepa_btc_forecasting.Recon.OrderBook.{
  Levels, OrderBook, level, prices, take, first, nlargest, nsmallest, best_bid, best_ask, half_sum,
  mid, microprice_of, microprice, size_at,
}
use jepa_btc_forecasting.Recon.OrderBook.Levels.{IsUnique, IsFresh, IsBook, levels_of}
use jepa_btc_forecasting.Recon.OrderBook.Best.{top_bid, top_ask}

module _ (fl : Float) (laws : FloatLaws fl) where
  open fl use {F, eq, lt, le}

  eq_comm : (a b : F) → eq a b ≡ eq b a
  eq_comm a b = ground (arith, laws.eq_iff a b, laws.eq_iff b a)

  eq_self : (a : F) → eq a a ≡ true
  eq_self a = (laws.eq_iff a a).1 refl

  -- No price stands twice.
  abbrev IsDistinct : List F → Type 0
  IsDistinct [] = Unit
  IsDistinct (x ∷ xs) = All (λ y. eq x y ≡ false) xs × IsDistinct xs

  abbrev SameMembers : List F → List F → Type 0
  SameMembers xs ys = (q : F) → any (eq q) xs ≡ any (eq q) ys

  All-member : (P : F → Type 0) (m : F) (xs : List F) → All P xs → any (eq m) xs ≡ true → P m
  All-member P m [] h k = absurd (cc)
  All-member P m (x ∷ xs) h k = elim (Bool-cases (eq m x)) [
    | inl same ↦ subst P (sym ((laws.eq_iff m x).0 same)) h.0
    | inr other ↦ All-member P m xs h.1 (ground (arith, k, other))
  ]

  any-none : (m : F) (xs : List F) → All (λ y. eq m y ≡ false) xs → any (eq m) xs ≡ false
  any-none m [] h = refl
  any-none m (x ∷ xs) h = ground (arith, h.0, any-none m xs h.1)

  module _ (before : F → F → Bool) (total : (a b : F) → before a b ≡ false → before b a ≡ true)
      (trans : (a b c : F) → before a b ≡ true → before b c ≡ true → before a c ≡ true)
      (antisymm : (a b : F) → before a b ≡ true → before b a ≡ true → a ≡ b) where
    insert-IsDistinct :
        (x : F) (xs : List F)
        → All (λ y. eq x y ≡ false) xs
        → IsDistinct xs
        → IsDistinct (insert before x xs)
    unfolding insert
    insert-IsDistinct x [] h k = (tt, tt)
    insert-IsDistinct x (y ∷ ys) h k = elim (Bool-cases (before x y)) [
      | inl e ↦ rw e (h, k)
      | inr e ↦ rw e (
        All-insert (λ z. eq y z ≡ false) before x ys (eq_comm y x ∙ h.0) k.0,
        insert-IsDistinct x ys h.1 k.1,
      )
    ]

    sort-IsDistinct : (xs : List F) → IsDistinct xs → IsDistinct (sort before xs)
    unfolding sort
    sort-IsDistinct [] h = tt
    sort-IsDistinct (x ∷ xs) h =
        insert-IsDistinct x (sort before xs) (All-sort (λ y. eq x y ≡ false) before xs h.0)
          (sort-IsDistinct xs h.1)

    -- Two sorted lists without repetition and with the same members are equal.
    sorted-eq :
        (xs ys : List F)
        → IsSorted before xs
        → IsSorted before ys
        → IsDistinct xs
        → IsDistinct ys
        → SameMembers xs ys
        → xs ≡ ys
    sorted-eq [] [] s r h k same = refl
    sorted-eq [] (y ∷ ys) s r h k same = absurd (ground (arith, same y, eq_self y))
    sorted-eq (x ∷ xs) [] s r h k same = absurd (ground (arith, same x, eq_self x))
    sorted-eq (x ∷ xs) (y ∷ ys) s r h k same = ap₂ ◌∷◌ heads (sorted-eq xs ys s.1 r.1 h.1 k.1 tails)
      where
        heads : x ≡ y
        heads = elim (Bool-cases (eq x y)) [
          | inl e ↦ (laws.eq_iff x y).0 e
          | inr e ↦
              antisymm x y
                (All-member (λ z. before x z ≡ true) y xs s.0
                  (ground (arith, same y, eq_self y, e, eq_comm x y)))
                (All-member (λ z. before y z ≡ true) x ys r.0
                  (ground (arith, same x, eq_self x, e)))
        ]

        tails : SameMembers xs ys
        tails q = elim (Bool-cases (eq q x)) [
          | inl e ↦
              let here : q ≡ x = (laws.eq_iff q x).0 e in
              any-none q xs (subst (λ z. All (λ y. eq z y ≡ false) xs) (sym here) h.0)
              ∙ sym (
                  any-none q ys
                    (subst (λ z. All (λ y. eq z y ≡ false) ys) (sym (here ∙ heads)) k.0))
          | inr e ↦ ground (arith, same q, e, ap (eq q) heads)
        ]

    abbrev order : Preorder F
    order = record { le = before; total = total; trans = trans }

    -- The order in which the members stand does not matter to the sort.
    sort_same :
        (xs ys : List F)
        → IsDistinct xs
        → IsDistinct ys
        → SameMembers xs ys
        → sort before xs ≡ sort before ys
    sort_same xs ys h k same =
        sorted-eq (sort before xs) (sort before ys) (sort-IsSorted order xs)
          (sort-IsSorted order ys) (sort-IsDistinct xs h) (sort-IsDistinct ys k)
          (λ q. any-sort (eq q) before xs ∙ same q ∙ sym (any-sort (eq q) before ys))

  le_total : (a b : F) → le a b ≡ false → le b a ≡ true
  le_total a b h = ground (arith, laws.le-eq-not_lt a b, laws.le-eq-not_lt b a, laws.lt_asymm b a)

  le_trans : (a b c : F) → le a b ≡ true → le b c ≡ true → le a c ≡ true
  le_trans a b c h k = ground (
    arith,
    laws.le-eq-not_lt a b,
    laws.le-eq-not_lt b c,
    laws.le-eq-not_lt a c,
    laws.not_lt_trans c b a,
  )

  le_antisymm : (a b : F) → le a b ≡ true → le b a ≡ true → a ≡ b
  le_antisymm a b h k =
      laws.not_lt_antisymm a b (ground (arith, laws.le-eq-not_lt b a, k))
        (ground (arith, laws.le-eq-not_lt a b, h))

  prices-IsDistinct : (l : Levels F) → IsUnique fl l → IsDistinct (prices fl l)
  prices-IsDistinct [] h = tt
  prices-IsDistinct ((p, s) ∷ l) h = (apart l h.0, prices-IsDistinct l h.1)
    where
      apart : (m : Levels F) → IsFresh fl p m → All (λ y. eq p y ≡ false) (prices fl m)
      apart [] k = tt
      apart ((q, t) ∷ m) k = (eq_comm p q ∙ k.0, apart m k.1)

  abbrev there : Option F → Bool
  there none = false
  there (some s) = true

  any-level : (q : F) (l : Levels F) → any (eq q) (prices fl l) ≡ there (level fl q l)
  unfolding level
  any-level q [] = refl
  any-level q ((p, s) ∷ l) = elim (Bool-cases (eq p q)) [
    | inl e ↦ rw (e, eq_comm q p ∙ e) refl
    | inr e ↦ rw (e, eq_comm q p ∙ e) (any-level q l)
  ]

  module _ (l m : Levels F) (h : IsUnique fl l) (k : IsUnique fl m)
      (same : (q : F) → level fl q l ≡ level fl q m) where
    members : SameMembers (prices fl l) (prices fl m)
    members q = any-level q l ∙ ap there (same q) ∙ sym (any-level q m)

    pub nlargest_same : (n : ℕ) → nlargest fl n l ≡ nlargest fl n m
    unfolding nlargest
    nlargest_same n = ap (take fl n) (
        sort_same (λ a b. le b a) (λ a b. le_total b a) (λ a b c x y. le_trans c b a y x)
          (λ a b x y. le_antisymm a b y x) (prices fl l) (prices fl m) (prices-IsDistinct l h)
          (prices-IsDistinct m k) members)

    pub nsmallest_same : (n : ℕ) → nsmallest fl n l ≡ nsmallest fl n m
    unfolding nsmallest
    nsmallest_same n = ap (take fl n) (
        sort_same le le_total le_trans le_antisymm (prices fl l) (prices fl m)
          (prices-IsDistinct l h) (prices-IsDistinct m k) members)

  pub record SameBook (a b : OrderBook F) : Type 0 where
    pub first_IsBook : IsBook fl a
    pub second_IsBook : IsBook fl b
    pub levels :
        (side : Side) (q : F) → level fl q (levels_of fl side a) ≡ level fl q (levels_of fl side b)

  module _ (a b : OrderBook F) (h : SameBook a b) where
    pub best_bid_same : best_bid fl a ≡ best_bid fl b
    unfolding best_bid
    best_bid_same =
        sym (top_bid fl laws 0 a.bids)
        ∙ ap (first fl)
            (nlargest_same a.bids b.bids h.first_IsBook.bids h.second_IsBook.bids (h.levels bid) 1)
        ∙ top_bid fl laws 0 b.bids

    pub best_ask_same : best_ask fl a ≡ best_ask fl b
    unfolding best_ask
    best_ask_same =
        sym (top_ask fl laws 0 a.asks)
        ∙ ap (first fl)
            (nsmallest_same a.asks b.asks h.first_IsBook.asks h.second_IsBook.asks (h.levels ask) 1)
        ∙ top_ask fl laws 0 b.asks

    pub size_at_bid : (p : Option F) → size_at fl p a.bids ≡ size_at fl p b.bids
    size_at_bid none = refl
    size_at_bid (some p) = h.levels bid p

    pub size_at_ask : (p : Option F) → size_at fl p a.asks ≡ size_at fl p b.asks
    size_at_ask none = refl
    size_at_ask (some p) = h.levels ask p

    pub mid_same : mid fl a ≡ mid fl b
    unfolding mid
    mid_same = ap₂ (half_sum fl) best_bid_same best_ask_same

    weighted_same :
        (x y : Option F) → microprice_of fl x y a.bids a.asks ≡ microprice_of fl x y b.bids b.asks
    weighted_same none y = refl
    weighted_same (some x) none = refl
    weighted_same (some x) (some y) = ground (arith, h.levels bid x, h.levels ask y)

    pub microprice_same : microprice fl a ≡ microprice fl b
    unfolding microprice
    microprice_same =
        ap₂ (λ x y. microprice_of fl x y a.bids a.asks) best_bid_same best_ask_same
        ∙ weighted_same (best_bid fl b) (best_ask fl b)
