-- ===== src/Bars/Snapshot/Cells.antt =====
-- bars/snapshot.py: the fold of one level by the greatest key, whatever the order of the events.
use jepa_btc_forecasting.Prelude.{
  ℕ, ◌<◌, ◌≡◌, ◌≢◌, refl, ap, ◌∙◌, inl, inr, Bool, Option, none, some, List, [], ◌∷◌, ◌++◌, arith,
  if◌then◌else◌, Bool-cases, filter, filter-append, append-nil, All, All-filter,
}
use jepa_btc_forecasting.Prelude.Sort.{insert}
use jepa_btc_forecasting.Bars.Snapshot.Records.{Pending, FoldKey, fold_key, pending_le}
use jepa_btc_forecasting.Bars.Snapshot.{newer}

abbrev pub key_of : {F : Type 0} → Option (Pending F) → Option FoldKey
key_of none = none
key_of (some p) = some (fold_key p)

module _ {F : Type 0} where
  abbrev pub AllBelow : ℕ → List (Pending F) → Type 0
  AllBelow n = All (λ y. y.position < n)

  abbrev pub Holds : (Pending F → Type 0) → Option (Pending F) → Type 0
  Holds P none = Unit
  Holds P (some z) = P z

module _ {F : Type 0} (m : Pending F → Bool) where
  -- The event that a level holds, after one more.
  abbrev pub cell : Option (Pending F) → Pending F → Option (Pending F)
  cell c p = if m p then (if newer (key_of c) (fold_key p) then some p else c) else c

  unfoldable pub settle : Option (Pending F) → List (Pending F) → Option (Pending F)
  settle c [] = c
  settle c (p ∷ ps) = settle (cell c p) ps

  cell_comm :
      (c : Option (Pending F)) (x y : Pending F)
      → x.position ≢ y.position
      → cell (cell c x) y ≡ cell (cell c y) x
  cell_comm none x y h = ground arith
  cell_comm (some z) x y h = ground arith

  pub settle-append :
      (c : Option (Pending F)) (xs ys : List (Pending F))
      → settle c (xs ++ ys) ≡ settle (settle c xs) ys
  unfolding settle
  settle-append c [] ys = refl
  settle-append c (x ∷ xs) ys = settle-append (cell c x) xs ys

  -- An event with a position of its own can be folded in first or last.
  settle_last :
      (c : Option (Pending F)) (x : Pending F) (xs : List (Pending F))
      → AllBelow x.position xs
      → settle c (x ∷ xs) ≡ settle c (xs ++ x ∷ [])
  unfolding settle
  settle_last c x [] h = refl
  settle_last c x (y ∷ ys) h =
      ap (λ d. settle d ys) (cell_comm c x y (λ e. absurd (omega (arith, h.0, e))))
      ∙ settle_last (cell c y) x ys h.1

  module _ (p : Pending F → Bool) where
    filter_front :
        (c : Option (Pending F)) (x : Pending F) (xs : List (Pending F))
        → AllBelow x.position xs
        → settle c (filter p (x ∷ xs)) ≡ settle c (filter p (xs ++ x ∷ []))
    filter_front c x xs h = rw (filter-append p xs (x ∷ [])) (elim (Bool-cases (p x)) [
      | inl e ↦
          rw e (settle_last c x (filter p xs) (All-filter (λ y. y.position < x.position) p xs h))
      | inr e ↦ rw (e, append-nil) refl
    ])

    -- Where the heap puts an event does not matter.
    pub settle-insert :
        (c : Option (Pending F)) (x : Pending F) (xs : List (Pending F))
        → AllBelow x.position xs
        → settle c (filter p (insert pending_le x xs)) ≡ settle c (filter p (xs ++ x ∷ []))
    unfolding insert settle
    settle-insert c x [] h = refl
    settle-insert c x (y ∷ ys) h = elim (Bool-cases (pending_le x y)) [
      | inl e ↦ rw e (filter_front c x (y ∷ ys) h)
      | inr e ↦ rw e (elim (Bool-cases (p y)) [
        | inl k ↦ rw k (settle-insert (cell c y) x ys h.1)
        | inr k ↦ rw k (settle-insert c x ys h.1)
      ])
    ]

  cell-Holds :
      (P : Pending F → Type 0) (c : Option (Pending F)) (x : Pending F)
      → P x
      → Holds P c
      → Holds P (cell c x)
  cell-Holds P c x px h = elim (Bool-cases (m x)) [
    | inr e ↦ rw e h
    | inl e ↦ elim (Bool-cases (newer (key_of c) (fold_key x))) [
      | inl k ↦ rw e (rw k px)
      | inr k ↦ rw e (rw k h)
    ]
  ]

  -- What holds of the events holds of the one that is left.
  pub settle-Holds :
      (P : Pending F → Type 0) (c : Option (Pending F)) (xs : List (Pending F))
      → All P xs
      → Holds P c
      → Holds P (settle c xs)
  unfolding settle
  settle-Holds P c [] h k = k
  settle-Holds P c (x ∷ xs) h k = settle-Holds P (cell c x) xs h.1 (cell-Holds P c x h.0 k)
