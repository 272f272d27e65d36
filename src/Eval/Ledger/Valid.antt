-- ===== src/Eval/Ledger/Valid.antt =====
-- eval/ledger.py, `_append` and `register` on a ledger that satisfies its invariant.
use Prim.Native.String.{String}
use text.Mathlib.Text.{◌==◌ as str_eq}
use text.Mathlib.TextEquality.{eq_iff}
use text.Mathlib.TextPositions.{eq_refl}
use mathlib.Core.List.{map-append}
use jepa_btc_forecasting.Prelude.{
  ℕ, ◌≡◌, ◌≢◌, refl, ap, sym, ◌∙◌, ◌+◌, suc, false, Option, none, some, List, [], ◌∷◌, ◌++◌, map,
  ok, err, length, any, All, All-append, arith, Bool-cases, inl, inr, ◌⊎◌, any-append, >>=-eq-ok,
  require->>-eq-ok,
}
use jepa_btc_forecasting.Eval.Json.{Json, Fields, json_safe}
use jepa_btc_forecasting.Eval.Ledger.{
  identity_mismatch, result_mismatch, conflicting_result, Entry, TrialLedger, lookup, identity_hash,
  insert_entry, append, register,
}

abbrev pub keyed : Entry → String × Entry
keyed e = (e.identity_sha256, e)

-- The sequence numbers count up from `n`.
abbrev pub IsNumbered : ℕ → List Entry → Type 0
IsNumbered n [] = Unit
IsNumbered n (e ∷ es) = (e.seq ≡ n) × IsNumbered (suc n) es

-- No identity occurs twice.
abbrev pub IsDistinct : List Entry → Type 0
IsDistinct [] = Unit
IsDistinct (e ∷ es) =
    (any (λ (x : Entry). str_eq e.identity_sha256 x.identity_sha256) es ≡ false) × IsDistinct es

IsNumbered-append :
    (n : ℕ) (es : List Entry) (e : Entry)
    → IsNumbered n es
    → e.seq ≡ n + length es
    → IsNumbered n (es ++ e ∷ [])
IsNumbered-append n [] e h k = (omega (arith, k), tt)
IsNumbered-append n (x ∷ es) e h k = (h.0, IsNumbered-append (suc n) es e h.1 (omega (arith, k)))

pub lookup-none :
    (es : List Entry) (k : String) (x : Entry)
    → lookup k (map keyed (x ∷ es)) ≡ none
    → (str_eq x.identity_sha256 k ≡ false) × (lookup k (map keyed es) ≡ none)
unfolding lookup
lookup-none es k x h = elim (Bool-cases (str_eq x.identity_sha256 k)) [
  | inl t ↦ absurd (cc)
  | inr f ↦ (f, ground arith)
]

IsDistinct-append :
    (es : List Entry) (e : Entry)
    → IsDistinct es
    → lookup e.identity_sha256 (map keyed es) ≡ none
    → IsDistinct (es ++ e ∷ [])
IsDistinct-append [] e h k = (refl, tt)
IsDistinct-append (x ∷ es) e h k =
    let parts = lookup-none es e.identity_sha256 x k in
    (
      any-append (λ (y : Entry). str_eq x.identity_sha256 y.identity_sha256) es (e ∷ [])
          ∙ ground (arith, h.0, parts.0),
      IsDistinct-append es e h.1 parts.1,
    )

pub lookup-append :
    (es : List (String × Entry)) (k : String) (e : Entry)
    → lookup k (es ++ keyed e ∷ [])
      ≡ elim (lookup k es) [ some x ↦ some x | none ↦ lookup k (keyed e ∷ []) ]
unfolding lookup
lookup-append [] k e = refl
lookup-append ((j, x) ∷ es) k e = elim (Bool-cases (str_eq j k)) [
  | inl t ↦ rw t refl
  | inr f ↦ rw f (lookup-append es k e)
]

-- The ledger with one more entry.
abbrev pub extended : Entry → TrialLedger → TrialLedger
extended r l = record { entries = l.entries ++ r ∷ []; by_identity = l.by_identity ++ keyed r ∷ [] }

insert_entry-cases :
    (e rec : Entry) (o : Option Entry) (l l' : TrialLedger)
    → insert_entry e o l ≡ ok (rec, l')
    → ((o ≡ some rec) × (l' ≡ l) × (rec.result_sha256 ≡ e.result_sha256))
      ⊎ ((o ≡ none) × (rec ≡ record e { seq = length l.entries }) × (l' ≡ extended rec l))
unfolding insert_entry
insert_entry-cases e rec none l l' h = inr (refl, ground arith, ground arith)
insert_entry-cases e rec (some x) l l' h =
    elim (Bool-cases (str_eq x.result_sha256 e.result_sha256)) [
      | inl t ↦ inl (ground arith, ground arith, (eq_iff _ _).0 (ground (arith, t)))
      | inr f ↦ absurd (ground arith)
    ]

lookup-extended :
    (r : Entry) (l : TrialLedger)
    → lookup r.identity_sha256 l.by_identity ≡ none
    → lookup r.identity_sha256 (extended r l).by_identity ≡ some r
unfolding lookup
lookup-extended r l new =
    lookup-append l.by_identity r.identity_sha256 r ∙ rw (new, eq_refl r.identity_sha256) refl

pub insert_entry-found :
    (e rec : Entry) (o : Option Entry) (l : TrialLedger)
    → o ≡ some rec
    → rec.result_sha256 ≡ e.result_sha256
    → insert_entry e o l ≡ ok (rec, l)
unfolding insert_entry
insert_entry-found e rec o l h same = rw (h, same, eq_refl e.result_sha256) refl

module _ (hash_obj : Json → String) where
  -- The hashes of an entry are those of its contents.
  abbrev pub IsSealed : Entry → Type 0
  IsSealed e =
      (identity_hash hash_obj e.identity ≡ ok e.identity_sha256)
      × (hash_obj e.result ≡ e.result_sha256)

  unfoldable pub IsValid : TrialLedger → Type 0
  IsValid l =
      (l.by_identity ≡ map keyed l.entries)
      × IsNumbered 0 l.entries
      × All IsSealed l.entries
      × IsDistinct l.entries

  append-inversion :
      (e rec : Entry) (l l' : TrialLedger)
      → append hash_obj e l ≡ ok (rec, l')
      → IsSealed e × (insert_entry e (lookup e.identity_sha256 l.by_identity) l ≡ ok (rec, l'))
  unfolding append
  append-inversion e rec l l' h =
      let step = >>=-eq-ok (identity_hash hash_obj e.identity) _ h in
      let found = require->>-eq-ok (str_eq step.0 e.identity_sha256) identity_mismatch _ step.2 in
      let same =
        require->>-eq-ok (str_eq (hash_obj e.result) e.result_sha256) result_mismatch _ found.1 in
      ((step.1 ∙ ap ok ((eq_iff _ _).0 found.0), (eq_iff _ _).0 same.0), same.1)

  extended-IsValid :
      (r : Entry) (l : TrialLedger)
      → IsValid l
      → IsSealed r
      → r.seq ≡ length l.entries
      → lookup r.identity_sha256 l.by_identity ≡ none
      → IsValid (extended r l)
  unfolding IsValid
  extended-IsValid r l v sealed at_end new = (
    ap (λ m. m ++ keyed r ∷ []) v.0 ∙ sym (map-append keyed l.entries (r ∷ [])),
    IsNumbered-append 0 l.entries r v.1 (omega (arith, at_end)),
    All-append IsSealed l.entries (r ∷ []) v.2 (sealed, tt),
    IsDistinct-append l.entries r v.3 (ap (lookup r.identity_sha256) (sym v.0) ∙ new),
  )

  -- What an append that succeeds does: the entry is sealed and ends up stored under its identity
  -- with its result, the stored entries stay, and at most one is added at the end.
  abbrev pub IsAppended : Entry → Entry → TrialLedger → TrialLedger → Type 0
  IsAppended e rec l l' =
      IsSealed e
      × (lookup e.identity_sha256 l'.by_identity ≡ some rec)
      × (rec.result_sha256 ≡ e.result_sha256)
      × ((l' ≡ l)
          ⊎ ((lookup e.identity_sha256 l.by_identity ≡ none)
              × (l' ≡ extended rec l)
              × (rec ≡ record e { seq = length l.entries })))

  -- From a valid ledger an append that succeeds leads to a valid ledger.
  pub append-IsValid :
      (e rec : Entry) (l l' : TrialLedger)
      → IsValid l
      → append hash_obj e l ≡ ok (rec, l')
      → IsValid l' × IsAppended e rec l l'
  append-IsValid e rec l l' v h =
      let done = append-inversion e rec l l' h in
      elim (insert_entry-cases e rec (lookup e.identity_sha256 l.by_identity) l l' done.1) [
        | inl c ↦ rw (c.1) (v, (done.0, c.0, c.2, inl refl))
        | inr c ↦
            let sealed : IsSealed rec = rw (c.1) done.0 in
            let same : rec.identity_sha256 ≡ e.identity_sha256 =
              ap (λ (x : Entry). x.identity_sha256) c.1 in
            let new = ap (λ k. lookup k l.by_identity) same ∙ c.0 in
            rw (c.2) (
              extended-IsValid rec l v sealed (ap (λ (x : Entry). x.seq) c.1) new,
              (
                done.0,
                ap (λ k. lookup k (extended rec l).by_identity) (sym same)
                    ∙ lookup-extended rec l new,
                ap (λ (x : Entry). x.result_sha256) c.1,
                inr (c.0, refl, c.1),
              ),
            )
      ]

  pub append-eq :
      (e : Entry) (l : TrialLedger)
      → IsSealed e
      → append hash_obj e l ≡ insert_entry e (lookup e.identity_sha256 l.by_identity) l
  unfolding append
  append-eq e l s = rw (s.0, eq_refl e.identity_sha256, s.1, eq_refl e.result_sha256) refl

  -- The entry that `register` hands to `_append`.
  abbrev pub entry_of : Fields → String → Json → Entry
  entry_of identity k result = record {
    identity = identity;
    identity_sha256 = k;
    result = json_safe result;
    result_sha256 = hash_obj (json_safe result);
    seq = 0;
  }

  pub register-eq :
      (identity : Fields) (result : Json) (k : String) (l : TrialLedger)
      → identity_hash hash_obj identity ≡ ok k
      → register hash_obj identity result l ≡ append hash_obj (entry_of identity k result) l
  unfolding register
  register-eq identity result k l h = rw h refl

  pub register-hash :
      (identity : Fields) (result : Json) (rec : Entry) (l l' : TrialLedger)
      → register hash_obj identity result l ≡ ok (rec, l')
      → (k : String) × (identity_hash hash_obj identity ≡ ok k)
  unfolding register
  register-hash identity result rec l l' h =
      let step = >>=-eq-ok (identity_hash hash_obj identity) _ h in (step.0, step.1)

  -- A trial that is registered already with another result is refused.
  pub register_conflict :
      (identity : Fields) (result : Json) (k : String) (old : Entry) (l : TrialLedger)
      → identity_hash hash_obj identity ≡ ok k
      → lookup k l.by_identity ≡ some old
      → old.result_sha256 ≢ hash_obj (json_safe result)
      → register hash_obj identity result l ≡ err conflicting_result
  unfolding register append insert_entry
  register_conflict identity result k old l at found differs =
      elim (Bool-cases (str_eq old.result_sha256 (hash_obj (json_safe result)))) [
        | inl t ↦ absurd (differs ((eq_iff _ _).0 t))
        | inr f ↦ rw (at, eq_refl k, eq_refl (hash_obj (json_safe result)), found, f) refl
      ]
