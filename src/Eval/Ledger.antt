-- ===== src/Eval/Ledger.antt =====
-- eval/ledger.py: the trial ledger. `hash_obj` (json and hashlib) is a parameter.
pub mod Valid
pub mod Import
pub mod Reload
pub mod History
use Prim.Native.String.{String}
use text.Mathlib.Text.{◌==◌ as str_eq, is_lt}
use Prim.Native.String.{compare}
use jepa_btc_forecasting.Prelude.{
  ℕ, ◌+◌, ◌-◌, Bool, true, false, not, ◌&&◌, ◌||◌, Option, none, some, List, [], ◌∷◌, ◌++◌, map,
  ltb, leb, ◌==◌, if◌then◌else◌, Result, ok, err, ◌>>=◌, ◌>>◌, refuse, require, length, filter, any,
  all,
}
use jepa_btc_forecasting.Prelude.Sort.{sort}
use jepa_btc_forecasting.Eval.Json.{
  Json, Fields, obj, num, str, arr, Items, nil, cons, field, end, json_safe, get, keys,
}

pub data LedgerError : Type 0 where
  bad_protocol empty_field bad_features bad_identity_fields identity_mismatch result_mismatch
        conflicting_result conflicting_import unsupported_version ledger_mismatch :
      LedgerError

abbrev pub ledger_version : ℕ
ledger_version = 1

abbrev pub trial_protocols : List String
trial_protocols = "g0cb" ∷ "g0xv" ∷ []

abbrev pub protocols : List String
protocols = trial_protocols ++ "g0xv-verdict" ∷ []

abbrev pub identity_fields : List String
identity_fields =
    "protocol" ∷ "arm" ∷ "dataset_id" ∷ "build_id" ∷ "feature_cols" ∷ "config" ∷ "horizon"
    ∷ "variant" ∷ "variant_params" ∷ []

-- `x in xs`
unfoldable pub contains : List String → String → Bool
contains [] x = false
contains (y ∷ ys) x = str_eq y x || contains ys x

-- Equality of two sets of strings.
unfoldable pub same_set : List String → List String → Bool
unfolding contains
same_set xs ys = all (contains ys) xs && all (contains xs) ys

unfoldable pub strings : List String → Items
strings [] = nil
strings (s ∷ ss) = cons (str s) (strings ss)

-- `trial_identity`; the parameters are a dictionary of JSON values.
unfoldable pub trial_identity :
    String
    → String
    → String
    → String
    → List String
    → String
    → String
    → String
    → Fields
    → Result LedgerError Json
unfolding contains strings json_safe
trial_identity protocol arm dataset_id build_id feature_cols config horizon variant variant_params =
    do
      require (contains protocols protocol) bad_protocol
      refuse (contains (arm ∷ dataset_id ∷ build_id ∷ config ∷ horizon ∷ variant ∷ []) "")
          empty_field
      refuse (leb (length feature_cols) 0 || contains feature_cols "") bad_features
      ok (
          obj (
            field "protocol" (str protocol) (
              field "arm" (str arm) (
                field "dataset_id" (str dataset_id) (
                  field "build_id" (str build_id) (
                    field "feature_cols" (arr (strings feature_cols)) (
                      field "config" (str config) (
                        field "horizon" (str horizon) (
                          field "variant" (str variant)
                            (field "variant_params" (json_safe (obj variant_params)) end))))))))))

pub record Entry : Type 0 where
  pub identity : Fields
  pub identity_sha256 : String
  pub result : Json
  pub result_sha256 : String
  pub seq : ℕ

pub record TrialLedger : Type 0 where
  pub entries : List Entry
  pub by_identity : List (String × Entry)

abbrev pub empty_ledger : TrialLedger
empty_ledger = record { entries = []; by_identity = [] }

-- d.get(k) of a dictionary with string keys. An entry is only ever added under a new key.
unfoldable pub lookup : String → List (String × Entry) → Option Entry
lookup k [] = none
lookup k ((j, e) ∷ l) = let rest = lookup k l in if str_eq j k then some e else rest

-- The last lines of `_append`, given the entry found under the identity.
unfoldable pub insert_entry :
    Entry → Option Entry → TrialLedger → Result LedgerError (Entry × TrialLedger)
insert_entry e (some existing) l =
    if str_eq existing.result_sha256 e.result_sha256
    then ok (existing, l)
    else err conflicting_result
insert_entry e none l =
    let rec = record e { seq = length l.entries } in
    ok (
      rec,
      record {
        entries = l.entries ++ rec ∷ [];
        by_identity = l.by_identity ++ (e.identity_sha256, rec) ∷ [];
      },
    )

-- `int(b)`
abbrev pub as_count : Bool → ℕ
as_count b = if b then 1 else 0

-- The pre-validation of `import_history`.
unfoldable pub conflicts : Entry → Option Entry → Bool
conflicts e none = false
conflicts e (some existing) = not (str_eq existing.result_sha256 e.result_sha256)

unfoldable pub is_trial : Option Json → Bool
unfolding contains
is_trial (some (str s)) = contains trial_protocols s
is_trial _ = false

-- `n_effective_trials`
unfoldable pub n_effective_trials : TrialLedger → ℕ
unfolding is_trial get
n_effective_trials l =
    length (filter (λ (e : Entry). is_trial (get "protocol" e.identity)) l.entries)

-- The order of pairs of strings.
unfoldable pub pair_le : String × String → String × String → Bool
pair_le a b = is_lt (compare a.0 b.0) || (str_eq a.0 b.0 && not (is_lt (compare b.1 a.1)))

-- A list of pairs of strings as JSON.
unfoldable pub pair_json : List (String × String) → Items
unfolding strings
pair_json [] = nil
pair_json (p ∷ ps) = cons (arr (strings (p.0 ∷ p.1 ∷ []))) (pair_json ps)

-- The JSON object of a ledger file.
pub record Payload : Type 0 where
  pub ledger_version : ℕ
  pub n_effective_trials : ℕ
  pub ledger_sha256 : String
  pub entries : List Entry

abbrev pub seq_le : Entry → Entry → Bool
seq_le a b = leb a.seq b.seq

module _ (hash_obj : Json → String) where
  unfoldable pub identity_hash : Fields → Result LedgerError String
  unfolding same_set keys
  identity_hash identity =
      if same_set (keys identity) identity_fields
      then ok (hash_obj (obj identity))
      else err bad_identity_fields

  -- `_append`. It raises before it writes, so a raise leaves the ledger as it was.
  unfoldable pub append : Entry → TrialLedger → Result LedgerError (Entry × TrialLedger)
  unfolding identity_hash insert_entry lookup
  append e l = do
    ih ← identity_hash e.identity
    require (str_eq ih e.identity_sha256) identity_mismatch
    require (str_eq (hash_obj e.result) e.result_sha256) result_mismatch
    insert_entry e (lookup e.identity_sha256 l.by_identity) l

  -- `register`
  unfoldable pub register : Fields → Json → TrialLedger → Result LedgerError (Entry × TrialLedger)
  unfolding append json_safe
  register identity result l = do
    ih ← identity_hash identity
    let safe = json_safe result
    append
        (record {
          identity = identity;
          identity_sha256 = ih;
          result = safe;
          result_sha256 = hash_obj safe;
          seq = 0;
        })
        l

  -- `TrialLedger(entries)`
  unfoldable pub append_all : List Entry → TrialLedger → Result LedgerError TrialLedger
  unfolding append
  append_all [] l = ok l
  append_all (e ∷ es) l = do (rec, l') ← append e l; append_all es l'

  -- The second loop of `import_history`: a raise leaves what was appended before it.
  unfoldable pub import_loop : List Entry → ℕ → TrialLedger → Result LedgerError ℕ × TrialLedger
  unfolding append
  import_loop [] added l = (ok added, l)
  import_loop (e ∷ es) added l = elim (append e l) [
    | err x ↦ (err x, l)
    | ok r ↦ import_loop es (added + as_count (ltb (length l.entries) (length r.1.entries))) r.1
  ]

  -- `import_history`
  unfoldable pub import_history : TrialLedger → TrialLedger → Result LedgerError ℕ × TrialLedger
  unfolding conflicts import_loop lookup
  import_history other l =
      if any (λ e. conflicts e (lookup e.identity_sha256 l.by_identity)) other.entries
      then (err conflicting_import, l)
      else import_loop other.entries 0 l

  -- `ledger_hash`
  unfoldable pub ledger_hash : TrialLedger → String
  unfolding pair_le pair_json
  ledger_hash l = hash_obj (
      obj (
        field "ledger_version" (num ledger_version) (
          field "trials"
            (arr (
              pair_json (
                sort pair_le
                  (map (λ (e : Entry). (e.identity_sha256, e.result_sha256)) l.entries))))
            end)))

  -- The payload that `save` writes.
  unfoldable pub save : TrialLedger → Payload
  unfolding n_effective_trials
  save l = record {
    ledger_version = ledger_version;
    n_effective_trials = n_effective_trials l;
    ledger_sha256 = ledger_hash l;
    entries = l.entries;
  }

  -- `load`, on the payload that the file holds.
  unfoldable pub load : Payload → Result LedgerError TrialLedger
  unfolding append_all
  load p = do
    require (p.ledger_version == ledger_version) unsupported_version
    l ← append_all (sort seq_le p.entries) empty_ledger
    require (str_eq (ledger_hash l) p.ledger_sha256) ledger_mismatch
    ok l
