-- ===== src/Bars/Snapshot/Observable.antt =====
-- bars/snapshot.py: one event that becomes observable, and the level that it names.
use jepa_btc_forecasting.Prelude.{
  ◌≡◌, refl, ap, ◌∙◌, inl, inr, Bool, true, ◌&&◌, Option, none, some, List, [], ◌∷◌, arith,
  if◌then◌else◌, Bool-cases,
}
use jepa_btc_forecasting.Prelude.Float.{Float, FloatLaws}
use jepa_btc_forecasting.Recon.Events.{Side, bid, ask}
use jepa_btc_forecasting.Recon.OrderBook.{OrderBook, apply, level}
use jepa_btc_forecasting.Recon.OrderBook.Levels.{
  IsBook, levels_of, left_at, same_side, level-apply, apply-reseed-IsBook,
}
use jepa_btc_forecasting.Bars.Snapshot.Records.{
  Pending, FoldKey, LevelKey, Sampler, side_of, to_delta, fold_key,
}
use jepa_btc_forecasting.Bars.Snapshot.{side_eq, newer, level_key, put_key, promote}
use jepa_btc_forecasting.Bars.Snapshot.Cells.{cell, key_of}

side_eq_iff : (a b : Side) → side_eq a b ≡ true → a ≡ b
side_eq_iff bid bid h = refl
side_eq_iff ask ask h = refl
side_eq_iff bid ask h = cc
side_eq_iff ask bid h = cc

side_eq_self : (a : Side) → side_eq a a ≡ true
side_eq_self bid = refl
side_eq_self ask = refl

module _ (fl : Float) where
  open fl use {F, eq}

  -- The events that name a level.
  abbrev pub at_level : Side → F → Pending F → Bool
  at_level side q p = side_eq (side_of p.event) side && eq p.event.price q

  module _ (laws : FloatLaws fl) where
    -- The size that the last event of a level leaves.
    abbrev pub left_by : Option (Pending F) → Option F
    left_by none = none
    left_by (some p) = left_at fl laws p.event.size

    same_side-eq : (a b : Side) → same_side fl laws a b ≡ side_eq a b
    same_side-eq bid bid = refl
    same_side-eq bid ask = refl
    same_side-eq ask bid = refl
    same_side-eq ask ask = refl

    -- A level after an event is applied.
    pub level-event :
        (b : OrderBook F) (p : Pending F) (side : Side) (q : F)
        → IsBook fl b
        → level fl q (levels_of fl side (apply fl b (to_delta p.event)).1) ≡ (
            if at_level side q p
            then left_at fl laws p.event.size
            else level fl q (levels_of fl side b))
    level-event b p side q h =
        level-apply fl laws b (to_delta p.event) side q h
        ∙ rw (same_side-eq (side_of p.event) side) (ground arith)

    level_key-put_key :
        (a s : Side) (p q : F) (key : FoldKey) (ks : List (LevelKey F))
        → level_key fl s q (put_key fl a p key ks)
          ≡ (if side_eq a s && eq p q then some key else level_key fl s q ks)
    unfolding level_key put_key
    level_key-put_key a s p q key [] = refl
    level_key-put_key a s p q key (k ∷ ks) = elim (Bool-cases (side_eq k.side a && eq k.price p)) [
      | inl e ↦
          let same : k.side ≡ a = side_eq_iff k.side a (ground arith) in
          let price : k.price ≡ p = (laws.eq_iff k.price p).0 (ground arith) in
          rw e (rw same (rw price (ground arith)))
      | inr e ↦ rw e (
          ground (
            arith,
            level_key-put_key a s p q key ks,
            laws.eq_iff k.price p,
            laws.eq_iff k.price q,
            laws.eq_iff p q,
            sides k.side a s,
          ))
    ]
      where
        sides : (x y z : Side) → side_eq x z ≡ true → side_eq y z ≡ true → side_eq x y ≡ true
        sides bid bid z h k = refl
        sides ask ask z h k = refl
        sides bid ask bid h k = cc
        sides bid ask ask h k = cc
        sides ask bid bid h k = cc
        sides ask bid ask h k = cc

    -- The key and the size of a level are those of one of the events.
    pub record Shows (side : Side) (q : F) (s : Sampler F) (c : Option (Pending F)) : Type 0 where
      pub key : level_key fl side q s.level_keys ≡ key_of c
      pub size : level fl q (levels_of fl side s.obs_book) ≡ left_by c

    pub promote-IsBook :
        (s : Sampler F) (p : Pending F) → IsBook fl s.obs_book → IsBook fl (promote fl s p).obs_book
    unfolding promote
    promote-IsBook s p h =
        elim (Bool-cases
          (newer (level_key fl (side_of p.event) p.event.price s.level_keys) (fold_key p))) [
            | inl e ↦ rw e (apply-reseed-IsBook fl laws s.obs_book (to_delta p.event) [] [] h).0
            | inr e ↦ rw e h
          ]

    pub promote-Shows :
        (s : Sampler F) (p : Pending F) (side : Side) (q : F) (c : Option (Pending F))
        → IsBook fl s.obs_book
        → Shows side q s c
        → Shows side q (promote fl s p) (cell (at_level side q) c p)
    unfolding promote
    promote-Shows s p side q c h k =
        let current = level_key fl (side_of p.event) p.event.price s.level_keys in
        let keys =
          level_key-put_key (side_of p.event) side p.event.price q (fold_key p) s.level_keys in
        let sizes = level-event s.obs_book p side q h in
        elim (Bool-cases (at_level side q p)) [
          | inl m ↦
              let same : side_of p.event ≡ side = side_eq_iff _ side (ground arith) in
              let price : p.event.price ≡ q = (laws.eq_iff p.event.price q).0 (ground arith) in
              let now : current ≡ key_of c =
                ap (λ x. level_key fl x p.event.price s.level_keys) same
                ∙ ap (λ x. level_key fl side x s.level_keys) price
                ∙ k.key in
              elim (Bool-cases (newer (key_of c) (fold_key p))) [
                | inl n ↦
                    rw (now, n, m) (record { key = keys ∙ rw m refl; size = sizes ∙ rw m refl })
                | inr n ↦ rw (now, n, m) (record { key = k.key; size = k.size })
              ]
          | inr m ↦ elim (Bool-cases (newer current (fold_key p))) [
            | inl n ↦ rw (n, m) (record { key = keys ∙ rw m k.key; size = sizes ∙ rw m k.size })
            | inr n ↦ rw (n, m) (record { key = k.key; size = k.size })
          ]
        ]
