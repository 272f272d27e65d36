-- ===== src/Eval/Ledger/Reload.antt =====
-- eval/ledger.py, `save` and `load`.
use Prim.Native.String.{String}
use text.Mathlib.Text.{◌==◌ as str_eq}
use text.Mathlib.TextPositions.{eq_refl}
use mathlib.Core.List.{map-append}
use mathlib.Core.Path.{subst}
use jepa_btc_forecasting.Prelude.{
  ℕ, ◌≤◌, ◌≡◌, refl, ap, sym, ◌∙◌, suc, true, false, none, List, [], ◌∷◌, ◌++◌, map, ok, length,
  any, All, arith, append-nil, append_assoc, leb, length-append, le→leb,
}
use jepa_btc_forecasting.Prelude.Sort.Laws.{IsSorted, sort-IsSorted_id}
use jepa_btc_forecasting.Eval.Json.{Json}
use jepa_btc_forecasting.Eval.Ledger.{
  Entry, TrialLedger, lookup, insert_entry, append, append_all, empty_ledger, ledger_hash, save,
  load, seq_le,
}
use jepa_btc_forecasting.Eval.Ledger.Valid.{
  keyed, IsNumbered, IsDistinct, IsSealed, IsValid, append-eq,
}

numbered-bound :
    (n m : ℕ) (es : List Entry)
    → m ≤ n
    → IsNumbered n es
    → All (λ (e : Entry). leb m e.seq ≡ true) es
numbered-bound n m [] h k = tt
numbered-bound n m (e ∷ es) h k =
    (le→leb m e.seq (omega (arith, k.0)), numbered-bound (suc n) m es (omega arith) k.1)

numbered-IsSorted : (n : ℕ) (es : List Entry) → IsNumbered n es → IsSorted seq_le es
numbered-IsSorted n [] k = tt
numbered-IsSorted n (e ∷ es) k =
    (numbered-bound (suc n) e.seq es (omega (arith, k.0)) k.1, numbered-IsSorted (suc n) es k.1)

-- The ledger of a list of entries.
abbrev pub of_entries : List Entry → TrialLedger
of_entries es = record { entries = es; by_identity = map keyed es }

head_differs :
    (x : Entry) (pre es : List Entry) (e : Entry)
    → any (λ (y : Entry). str_eq x.identity_sha256 y.identity_sha256) (pre ++ e ∷ es) ≡ false
    → str_eq x.identity_sha256 e.identity_sha256 ≡ false
head_differs x [] es e h = ground arith
head_differs x (y ∷ pre) es e h = head_differs x pre es e (ground (arith, h))

distinct-lookup :
    (pre es : List Entry) (e : Entry)
    → IsDistinct (pre ++ e ∷ es)
    → lookup e.identity_sha256 (map keyed pre) ≡ none
unfolding lookup
distinct-lookup [] es e d = refl
distinct-lookup (x ∷ pre) es e d = rw (head_differs x pre es e d.0) (distinct-lookup pre es e d.1)

module _ (hash_obj : Json → String) where
  append_of :
      (pre : List Entry) (e : Entry)
      → IsSealed hash_obj e
      → e.seq ≡ length pre
      → lookup e.identity_sha256 (map keyed pre) ≡ none
      → append hash_obj e (of_entries pre) ≡ ok (e, of_entries (pre ++ e ∷ []))
  unfolding insert_entry
  append_of pre e s at n =
      append-eq hash_obj e (of_entries pre) s
      ∙ rw n (
          ap
            (λ k. ok (
              record e { seq = k },
              record {
                entries = pre ++ record e { seq = k } ∷ [];
                by_identity = map keyed pre ++ keyed (record e { seq = k }) ∷ [];
              },
            ))
            (sym at)
          ∙ ap (λ m. ok (e, record { entries = pre ++ e ∷ []; by_identity = m }))
              (sym (map-append keyed pre (e ∷ []))))

  append_all-step :
      (e rec : Entry) (es : List Entry) (l l1 : TrialLedger)
      → append hash_obj e l ≡ ok (rec, l1)
      → append_all hash_obj (e ∷ es) l ≡ append_all hash_obj es l1
  unfolding append_all
  append_all-step e rec es l l1 h = rw (append_all, h) refl

  append_all_of :
      (pre es : List Entry)
      → All (IsSealed hash_obj) es
      → IsNumbered (length pre) es
      → IsDistinct (pre ++ es)
      → append_all hash_obj es (of_entries pre) ≡ ok (of_entries (pre ++ es))
  unfolding append_all
  append_all_of pre [] s n d = ap (λ x. ok (of_entries x)) (sym (append-nil pre))
  append_all_of pre (e ∷ es) s n d =
      let assoc = append_assoc pre (e ∷ []) es in
      let count : length (pre ++ e ∷ []) ≡ suc (length pre) =
        omega (arith, length-append pre (e ∷ [])) in
      append_all-step e e es (of_entries pre) (of_entries (pre ++ e ∷ []))
        (append_of pre e s.0 n.0 (distinct-lookup pre es e d))
      ∙ append_all_of (pre ++ e ∷ []) es s.1 (subst (λ k. IsNumbered k es) (sym count) n.1)
          (subst IsDistinct (sym assoc) d)
      ∙ ap (λ x. ok (of_entries x)) assoc

  -- Loading what a valid ledger saves gives that ledger back, with its identities and positions.
  pub load-save : (l : TrialLedger) → IsValid hash_obj l → load hash_obj (save hash_obj l) ≡ ok l
  unfolding load save IsValid
  load-save l v =
      let same : of_entries l.entries ≡ l =
        ap (λ m. record { entries = l.entries; by_identity = m }) (sym v.0) in
      let back =
        ap (λ es. append_all hash_obj es empty_ledger)
          (sort-IsSorted_id seq_le l.entries (numbered-IsSorted 0 l.entries v.1))
        ∙ append_all_of [] l.entries v.2 v.1 v.3
        ∙ ap ok same in
      rw back (rw (eq_refl (ledger_hash hash_obj l)) refl)
