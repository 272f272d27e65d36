-- ===== src/Eval/Ledger/Import.antt =====
-- eval/ledger.py, `import_history`.
use Prim.Native.String.{String}
use text.Mathlib.Text.{◌==◌ as str_eq}
use text.Mathlib.TextEquality.{eq_iff}
use jepa_btc_forecasting.Prelude.{
  ℕ, ◌≡◌, refl, ap, sym, ◌∙◌, ◌+◌, Bool, false, ◌||◌, Option, none, some, List, [], ◌∷◌, ◌++◌,
  Result, ok, err, length, any, All, arith, Bool-cases, Option-cases, inl, inr, ◌⊎◌, append-nil,
  append_assoc, ltb, length-append,
}
use jepa_btc_forecasting.Eval.Json.{Json}
use jepa_btc_forecasting.Eval.Ledger.{
  LedgerError, conflicting_import, Entry, TrialLedger, lookup, insert_entry, append, conflicts,
  as_count, import_loop, import_history,
}
use jepa_btc_forecasting.Eval.Ledger.Valid.{
  IsDistinct, IsSealed, IsValid, IsAppended, append-IsValid, append-eq, insert_entry-found,
  extended, lookup-append,
}

-- The entry agrees with whatever a ledger holds under its identity.
abbrev pub IsCompatible : TrialLedger → Entry → Type 0
IsCompatible l e = conflicts e (lookup e.identity_sha256 l.by_identity) ≡ false

-- Entries are only added, and what is stored under an identity stays.
abbrev pub Extends : TrialLedger → TrialLedger → Type 0
Extends l l' =
    (new : List Entry) × (l'.entries ≡ l.entries ++ new)
    × ((k : String) (r : Entry)
        → lookup k l.by_identity ≡ some r
        → lookup k l'.by_identity ≡ some r)

pub Extends-refl : (l : TrialLedger) → Extends l l
Extends-refl l = ([], sym (append-nil l.entries), λ k r h. h)

pub Extends-trans : (a b c : TrialLedger) → Extends a b → Extends b c → Extends a c
Extends-trans a b c h k = (
  h.0 ++ k.0,
  k.1 ∙ ap (λ es. es ++ k.0) h.1 ∙ append_assoc a.entries h.0 k.0,
  λ i r at. k.2 i r (h.2 i r at),
)

Extends-extended : (r : Entry) (l : TrialLedger) → Extends l (extended r l)
Extends-extended r l = (r ∷ [], refl, λ k x h. lookup-append l.by_identity k r ∙ rw h refl)

lookup-extended_other :
    (r : Entry) (l : TrialLedger) (k : String)
    → str_eq r.identity_sha256 k ≡ false
    → lookup k (extended r l).by_identity ≡ lookup k l.by_identity
unfolding lookup
lookup-extended_other r l k h =
    lookup-append l.by_identity k r ∙ elim (Option-cases (lookup k l.by_identity)) [
      | inl n ↦ rw (n, h) refl
      | inr f ↦ rw (f.1) refl
    ]

-- An entry that is there, with its result.
abbrev pub IsPresent : TrialLedger → Entry → Type 0
IsPresent l e =
    (rec : Entry) × (lookup e.identity_sha256 l.by_identity ≡ some rec)
    × (rec.result_sha256 ≡ e.result_sha256)

or-false : (a b : Bool) → (a || b) ≡ false → (a ≡ false) × (b ≡ false)
or-false a b h = ground arith

compatible-eq :
    (e x : Entry) (o : Option Entry)
    → o ≡ some x
    → conflicts e o ≡ false
    → x.result_sha256 ≡ e.result_sha256
unfolding conflicts
compatible-eq e x none h c = absurd (cc)
compatible-eq e x (some y) h c = (eq_iff _ _).0 (ground (arith, h, c))

module _ (hash_obj : Json → String) where
  append-IsCompatible :
      (e : Entry) (l : TrialLedger)
      → IsSealed hash_obj e
      → IsCompatible l e
      → (rec : Entry) × (l' : TrialLedger) × (append hash_obj e l ≡ ok (rec, l'))
  unfolding insert_entry conflicts
  append-IsCompatible e l s c = elim (Option-cases (lookup e.identity_sha256 l.by_identity)) [
    | inl n ↦ (
      record e { seq = length l.entries },
      extended (record e { seq = length l.entries }) l,
      append-eq hash_obj e l s ∙ rw n refl,
    )
    | inr f ↦ (
      f.0,
      l,
      append-eq hash_obj e l s ∙ insert_entry-found e f.0 _ l f.1 (compatible-eq e f.0 _ f.1 c),
    )
  ]

  pub append-Extends :
      (e rec : Entry) (l l' : TrialLedger) → IsAppended hash_obj e rec l l' → Extends l l'
  append-Extends e rec l l' h = elim (h.3) [
    | inl same ↦ rw same (Extends-refl l)
    | inr new ↦ rw (new.1) (Extends-extended rec l)
  ]

  append-count :
      (e rec : Entry) (l l' : TrialLedger) (h : IsAppended hash_obj e rec l l')
      → as_count (ltb (length l.entries) (length l'.entries))
        ≡ length (append-Extends e rec l l' h).0
  append-count e rec l l' h =
      let m = append-Extends e rec l l' h in
      let grown : length l'.entries ≡ length l.entries + length m.0 =
        ap length m.1 ∙ length-append l.entries m.0 in
      elim (h.3) [
        | inl same ↦ ground (arith, grown, ap (λ (x : TrialLedger). length x.entries) same)
        | inr new ↦ ground (
          arith,
          grown,
          ap (λ (x : TrialLedger). length x.entries) new.1,
          length-append l.entries (rec ∷ []),
        )
      ]

  append-other :
      (e rec : Entry) (l l' : TrialLedger) (k : String)
      → IsAppended hash_obj e rec l l'
      → str_eq e.identity_sha256 k ≡ false
      → lookup k l'.by_identity ≡ lookup k l.by_identity
  append-other e rec l l' k h ne = elim (h.3) [
    | inl same ↦ rw same refl
    | inr new ↦
        rw (new.1) (
          lookup-extended_other rec l k (ap (λ (x : Entry). str_eq x.identity_sha256 k) new.2 ∙ ne))
  ]

  All-IsCompatible :
      (e rec : Entry) (l l' : TrialLedger) (es : List Entry)
      → IsAppended hash_obj e rec l l'
      → any (λ (x : Entry). str_eq e.identity_sha256 x.identity_sha256) es ≡ false
      → All (IsCompatible l) es
      → All (IsCompatible l') es
  All-IsCompatible e rec l l' [] h ne c = tt
  All-IsCompatible e rec l l' (x ∷ es) h ne c =
      let parts = or-false (str_eq e.identity_sha256 x.identity_sha256) _ ne in
      (
        ap (conflicts x) (append-other e rec l l' x.identity_sha256 h parts.0) ∙ c.0,
        All-IsCompatible e rec l l' es h parts.1 c.1,
      )

  -- What the loop of `import_history` returns and leaves.
  abbrev pub Imported : List Entry → ℕ → TrialLedger → Result LedgerError ℕ × TrialLedger → Type 0
  Imported es n l out =
      (l' : TrialLedger) × (more : Extends l l') × (out ≡ (ok (n + length more.0), l'))
      × IsValid hash_obj l'
      × All (IsPresent l') es

  import_loop-step :
      (e rec : Entry) (es : List Entry) (n : ℕ) (l l1 : TrialLedger)
      → append hash_obj e l ≡ ok (rec, l1)
      → import_loop hash_obj (e ∷ es) n l
        ≡ import_loop hash_obj es (n + as_count (ltb (length l.entries) (length l1.entries))) l1
  unfolding import_loop
  import_loop-step e rec es n l l1 h = rw (import_loop, h) refl

  import_loop_lem :
      (es : List Entry) (n : ℕ) (l : TrialLedger)
      → IsValid hash_obj l
      → All (IsSealed hash_obj) es
      → IsDistinct es
      → All (IsCompatible l) es
      → Imported es n l (import_loop hash_obj es n l)
  unfolding import_loop Extends-refl append-IsCompatible Extends-trans
  import_loop_lem [] n l v s d c = (l, Extends-refl l, ap (λ m. (ok m, l)) (omega arith), v, tt)
  import_loop_lem (e ∷ es) n l v s d c =
      let (rec, l1, done) = append-IsCompatible e l s.0 c.0 in
      let (v1, added) = append-IsValid hash_obj e rec l l1 v done in
      let more = append-Extends e rec l l1 added in
      let rest =
        import_loop_lem es (n + as_count (ltb (length l.entries) (length l1.entries))) l1 v1 s.1 d.1
          (All-IsCompatible e rec l l1 es added d.0 c.1) in
      let count = append-count e rec l l1 added in
      let total = length-append more.0 rest.1.0 in
      (
        rest.0,
        Extends-trans l l1 rest.0 more rest.1,
        import_loop-step e rec es n l l1 done
            ∙ rest.2
            ∙ ap (λ m. (ok m, rest.0)) (omega (arith, count, total)),
        rest.3,
        ((rec, rest.1.2 e.identity_sha256 rec added.1, added.2), rest.4),
      )

  any-conflicts :
      (es : List Entry) (l : TrialLedger)
      → any (λ (e : Entry). conflicts e (lookup e.identity_sha256 l.by_identity)) es ≡ false
      → All (IsCompatible l) es
  any-conflicts [] l h = tt
  any-conflicts (e ∷ es) l h =
      let parts = or-false (conflicts e (lookup e.identity_sha256 l.by_identity)) _ h in
      (parts.0, any-conflicts es l parts.1)

  -- Importing the history of a valid ledger into a valid ledger either refuses and leaves the
  -- ledger as it was, or succeeds: then the ledger is valid, has its old entries and after them
  -- the new ones, whose number is returned, and holds every imported entry with its result.
  pub import_history_atomic :
      (other l : TrialLedger)
      → IsValid hash_obj other
      → IsValid hash_obj l
      → (import_history hash_obj other l ≡ (err conflicting_import, l))
        ⊎ Imported other.entries 0 l (import_history hash_obj other l)
  unfolding import_history IsValid
  import_history_atomic other l o v =
      elim (Bool-cases
        (any (λ (e : Entry). conflicts e (lookup e.identity_sha256 l.by_identity)) other.entries)) [
          | inl t ↦ inl (rw t refl)
          | inr f ↦
              inr (
                rw f
                  (import_loop_lem other.entries 0 l v o.2 o.3 (any-conflicts other.entries l f)))
        ]
