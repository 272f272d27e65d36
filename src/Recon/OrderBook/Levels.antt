-- ===== src/Recon/OrderBook/Levels.antt =====
-- recon/orderbook.py: one side of the book as a dictionary.
use jepa_btc_forecasting.Prelude.{
  ◌≡◌, refl, inl, inr, Bool, true, false, Option, none, some, [], ◌∷◌, arith, if◌then◌else◌,
  Bool-cases, All,
}
use jepa_btc_forecasting.Prelude.Float.{Float, FloatLaws}
use jepa_btc_forecasting.Recon.Events.{Side, bid, ask, Delta}
use jepa_btc_forecasting.Recon.OrderBook.{
  Levels, OrderBook, level, put, pop, write, put_all, apply_side, apply, reseed,
}

module _ (fl : Float) where
  open fl use {F, of_ℕ, eq}

  abbrev pub IsFresh : F → Levels F → Type 0
  IsFresh p l = All (λ e. eq e.0 p ≡ false) l

  -- No price has two entries: an association list that stands for a dictionary.
  abbrev pub IsUnique : Levels F → Type 0
  IsUnique [] = Unit
  IsUnique (e ∷ l) = IsFresh e.0 l × IsUnique l

  abbrev pub levels_of : Side → OrderBook F → Levels F
  levels_of bid b = b.bids
  levels_of ask b = b.asks

  pub record IsBook (b : OrderBook F) : Type 0 where
    pub bids : IsUnique b.bids
    pub asks : IsUnique b.asks

  module _ (laws : FloatLaws fl) where
    eq_sym : (a b : F) → eq a b ≡ false → eq b a ≡ false
    eq_sym a b h = ground (arith, laws.eq_iff a b, laws.eq_iff b a)

    level_fresh : (p : F) (l : Levels F) → IsFresh p l → level fl p l ≡ none
    unfolding level
    level_fresh p [] h = refl
    level_fresh p ((q, s) ∷ l) h = rw h.0 (level_fresh p l h.1)

    level-put :
        (p q s : F) (l : Levels F)
        → level fl q (put fl p s l) ≡ (if eq p q then some s else level fl q l)
    unfolding level put
    level-put p q s [] = refl
    level-put p q s ((r, t) ∷ l) =
        ground (arith, level-put p q s l, laws.eq_iff r p, laws.eq_iff r q, laws.eq_iff p q)

    level-pop :
        (p q : F) (l : Levels F)
        → IsUnique l
        → level fl q (pop fl p l) ≡ (if eq p q then none else level fl q l)
    unfolding level pop
    level-pop p q [] h = ground arith
    level-pop p q ((r, t) ∷ l) h = ground (
      arith,
      level-pop p q l h.1,
      laws.eq_iff r p,
      laws.eq_iff r q,
      laws.eq_iff p q,
      level_fresh r l h.0,
    )

    put-IsFresh :
        (r p s : F) (l : Levels F) → eq p r ≡ false → IsFresh r l → IsFresh r (put fl p s l)
    unfolding put
    put-IsFresh r p s [] h k = (h, tt)
    put-IsFresh r p s ((q, t) ∷ l) h k = elim (Bool-cases (eq q p)) [
      | inl e ↦ rw e k
      | inr e ↦ rw e (k.0, put-IsFresh r p s l h k.1)
    ]

    put-IsUnique : (p s : F) (l : Levels F) → IsUnique l → IsUnique (put fl p s l)
    unfolding put
    put-IsUnique p s [] h = (tt, tt)
    put-IsUnique p s ((q, t) ∷ l) h = elim (Bool-cases (eq q p)) [
      | inl e ↦ rw e h
      | inr e ↦ rw e (put-IsFresh q p s l (eq_sym q p e) h.0, put-IsUnique p s l h.1)
    ]

    pop-IsFresh : (r p : F) (l : Levels F) → IsFresh r l → IsFresh r (pop fl p l)
    unfolding pop
    pop-IsFresh r p [] k = tt
    pop-IsFresh r p ((q, t) ∷ l) k = elim (Bool-cases (eq q p)) [
      | inl e ↦ rw e k.1
      | inr e ↦ rw e (k.0, pop-IsFresh r p l k.1)
    ]

    pop-IsUnique : (p : F) (l : Levels F) → IsUnique l → IsUnique (pop fl p l)
    unfolding pop
    pop-IsUnique p [] h = tt
    pop-IsUnique p ((q, t) ∷ l) h = elim (Bool-cases (eq q p)) [
      | inl e ↦ rw e h.1
      | inr e ↦ rw e (pop-IsFresh q p l h.0, pop-IsUnique p l h.1)
    ]

    write-IsUnique : (p s : F) (l : Levels F) → IsUnique l → IsUnique (write fl p s l)
    unfolding write
    write-IsUnique p s l h = elim (Bool-cases (eq s (of_ℕ 0))) [
      | inl e ↦ rw e (pop-IsUnique p l h)
      | inr e ↦ rw e (put-IsUnique p s l h)
    ]

    put_all-IsUnique : (ls l : Levels F) → IsUnique l → IsUnique (put_all fl ls l)
    unfolding put_all
    put_all-IsUnique [] l h = h
    put_all-IsUnique ((p, s) ∷ ls) l h = put_all-IsUnique ls (put fl p s l) (put-IsUnique p s l h)

    -- The size that a delta leaves at its price: none for a size of zero.
    abbrev pub left_at : F → Option F
    left_at s = if eq s (of_ℕ 0) then none else some s

    level-write :
        (p q s : F) (l : Levels F)
        → IsUnique l
        → level fl q (write fl p s l) ≡ (if eq p q then left_at s else level fl q l)
    unfolding write
    level-write p q s l h = elim (Bool-cases (eq s (of_ℕ 0))) [
      | inl e ↦ rw e (level-pop p q l h)
      | inr e ↦ rw e (level-put p q s l)
    ]

    abbrev pub same_side : Side → Side → Bool
    same_side bid bid = true
    same_side ask ask = true
    same_side _ _ = false

    -- A delta sets the one level that it names, or removes it if its size is zero, and leaves every
    -- other level of either side as it was.
    pub level-apply :
        (b : OrderBook F) (d : Delta F) (side : Side) (q : F)
        → IsBook b
        → level fl q (levels_of side (apply fl b d).1) ≡ (
            if same_side d.side side
            then (if eq d.price q then left_at d.size else level fl q (levels_of side b))
            else level fl q (levels_of side b))
    unfolding apply apply_side
    level-apply b d side q h = at_side d.side side
      where
        at_side :
            (x y : Side)
            → level fl q (levels_of y (apply_side fl x d b)) ≡ (
                if same_side x y
                then (if eq d.price q then left_at d.size else level fl q (levels_of y b))
                else level fl q (levels_of y b))
        at_side bid bid = level-write d.price q d.size b.bids h.bids
        at_side bid ask = refl
        at_side ask bid = refl
        at_side ask ask = level-write d.price q d.size b.asks h.asks

    apply_side-IsBook :
        (x : Side) (d : Delta F) (b : OrderBook F) → IsBook b → IsBook (apply_side fl x d b)
    unfolding apply_side
    apply_side-IsBook bid d b h = record {
      bids = write-IsUnique d.price d.size b.bids h.bids;
      asks = h.asks;
    }
    apply_side-IsBook ask d b h = record {
      bids = h.bids;
      asks = write-IsUnique d.price d.size b.asks h.asks;
    }

    -- The size of a price in a list of levels: of its last entry.
    abbrev pub last_level : F → Levels F → Option F
    last_level q [] = none
    last_level q ((p, s) ∷ ls) = elim (last_level q ls) [
      | some t ↦ some t
      | none ↦ if eq p q then some s else none
    ]

    level-put_all :
        (q : F) (ls l : Levels F)
        → level fl q (put_all fl ls l)
          ≡ elim (last_level q ls) [ some t ↦ some t | none ↦ level fl q l ]
    unfolding put_all
    level-put_all q [] l = refl
    level-put_all q ((p, s) ∷ ls) l =
        ground (arith, level-put_all q ls (put fl p s l), level-put p q s l)

    -- The association lists stand for dictionaries after a delta and after a reseed as well.
    pub apply-reseed-IsBook :
        (b : OrderBook F) (d : Delta F) (bids asks : Levels F)
        → IsBook b
        → IsBook (apply fl b d).1 × IsBook (reseed fl bids asks b)
    unfolding apply reseed
    apply-reseed-IsBook b d bids asks h = (
      apply_side-IsBook d.side d b h,
      record { bids = put_all-IsUnique bids [] tt; asks = put_all-IsUnique asks [] tt },
    )

    -- After a reseed each level is that of the snapshot, a repeated price at its last size; nothing of
    -- the old book is left, and the sequence starts anew.
    pub level-reseed :
        (b : OrderBook F) (bids asks : Levels F) (q : F)
        → (level fl q (reseed fl bids asks b).bids ≡ last_level q bids)
          × (level fl q (reseed fl bids asks b).asks ≡ last_level q asks)
          × ((reseed fl bids asks b).last_seq ≡ none)
    unfolding reseed level
    level-reseed b bids asks q =
        (ground (arith, level-put_all q bids []), ground (arith, level-put_all q asks []), refl)
