-- ===== src/Eval/Ledger/History.antt =====
-- eval/ledger.py, a ledger over any sequence of `register` and `import_history`.
use Prim.Native.String.{String}
use jepa_btc_forecasting.Prelude.{◌≡◌, ◌≢◌, sym, ◌∙◌, ok, err, inl, inr}
use jepa_btc_forecasting.Eval.Json.{Json, Fields, json_safe}
use jepa_btc_forecasting.Eval.Ledger.{
  conflicting_result, Entry, TrialLedger, lookup, identity_hash, register, import_history,
}
use jepa_btc_forecasting.Eval.Ledger.Valid.{
  IsValid, IsAppended, append-IsValid, append-eq, insert_entry-found, entry_of, register-eq,
  register-hash, register_conflict,
}
use jepa_btc_forecasting.Eval.Ledger.Import.{
  Extends, Extends-refl, Extends-trans, append-Extends, import_history_atomic,
}

module _ (hash_obj : Json → String) where
  -- One operation: a registration that succeeds (one that is refused raises and leaves the ledger as
  -- it was), or an import of another ledger's history, refused or not.
  pub data Step : TrialLedger → TrialLedger → Type 0 where
    registers :
        (identity : Fields) (result : Json) (rec : Entry) {l l' : TrialLedger}
        → register hash_obj identity result l ≡ ok (rec, l')
        → Step l l'
    imports :
        (other : TrialLedger) {l : TrialLedger}
        → IsValid hash_obj other
        → Step l (import_history hash_obj other l).1

  pub data Reach (l : TrialLedger) : TrialLedger → Type 0 where
    here : Reach l l
    next : {m n : TrialLedger} → Reach l m → Step m n → Reach l n

  -- What a registration that succeeds does, under the hash of its identity.
  register-IsAppended :
      (identity : Fields) (result : Json) (rec : Entry) (l l' : TrialLedger)
      → IsValid hash_obj l
      → register hash_obj identity result l ≡ ok (rec, l')
      → (k : String) × (identity_hash hash_obj identity ≡ ok k)
        × IsValid hash_obj l'
        × IsAppended hash_obj (entry_of hash_obj identity k result) rec l l'
  register-IsAppended identity result rec l l' v h =
      let at = register-hash hash_obj identity result rec l l' h in
      let e = entry_of hash_obj identity at.0 result in
      let done =
        append-IsValid hash_obj e rec l l' v
          (sym (register-eq hash_obj identity result at.0 l at.1) ∙ h) in
      (at.0, at.1, done.0, done.1)

  Step-Extends :
      (l l' : TrialLedger) → IsValid hash_obj l → Step l l' → IsValid hash_obj l' × Extends l l'
  Step-Extends l l' v (registers identity result rec h) =
      let done = register-IsAppended identity result rec l l' v h in
      (done.2, append-Extends hash_obj (entry_of hash_obj identity done.0 result) rec l l' done.3)
  Step-Extends l l' v (imports other o) = elim (import_history_atomic hash_obj other l o v) [
    | inl refused ↦ rw refused (v, Extends-refl l)
    | inr done ↦ rw (done.2) (done.3, done.1)
  ]

  Reach-Extends :
      (l l' : TrialLedger) → IsValid hash_obj l → Reach l l' → IsValid hash_obj l' × Extends l l'
  Reach-Extends l l' v here = (v, Extends-refl l)
  Reach-Extends l l' v (next {m} {n} r s) =
      let before = Reach-Extends l m v r in
      let after = Step-Extends m n before.0 s in (after.0, Extends-trans l m n before.1 after.1)

  -- Once a trial is registered in a valid ledger its result stands: whatever is registered and
  -- imported afterwards, registering the trial with that result again succeeds, gives the same
  -- entry and changes nothing, and registering it with a result of another hash is refused.
  pub registered_stands :
      (identity : Fields) (result other_result : Json) (rec : Entry) (l l' l'' : TrialLedger)
      → IsValid hash_obj l
      → register hash_obj identity result l ≡ ok (rec, l')
      → Reach l' l''
      → hash_obj (json_safe result) ≢ hash_obj (json_safe other_result)
      → (register hash_obj identity result l'' ≡ ok (rec, l''))
        × (register hash_obj identity other_result l'' ≡ err conflicting_result)
  registered_stands identity result other_result rec l l' l'' v h r differs =
      let done = register-IsAppended identity result rec l l' v h in
      let e = entry_of hash_obj identity done.0 result in
      let found = (Reach-Extends l' l'' done.2 r).1.2 done.0 rec (done.3).1 in
      let same = (done.3).2 in
      (
        register-eq hash_obj identity result done.0 l'' done.1
            ∙ append-eq hash_obj e l'' (done.3).0
            ∙ insert_entry-found e rec (lookup done.0 l''.by_identity) l'' found same,
        register_conflict hash_obj identity other_result done.0 rec l'' done.1 found
            (λ q. differs (sym same ∙ q)),
      )
