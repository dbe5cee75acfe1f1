-- ===== src/Replay/Actions/CodeDb.antt =====
-- code.go: the action that collects the codes and writes them to a database.
-- LevelDB is a parameter: a state with `OpenFile` and `Put`, whose `none` is an error, and the text of
-- an address.
use mathlib.Core.Option.{some-injective}
use substate_cli.Prelude.{
  ℕ, ◌≡◌, ◌≢◌, ◌≤◌, refl, sym, ◌∙◌, ap, inl, inr, Option, none, some, List, [], ◌∷◌, arith, ◌==◌,
  nat_eq, nat_eqb_iff, Option-cases, Bool-cases,
}
use substate_cli.GoMap.{lookup, Distinct}
use substate_cli.Types.{Address, Code}
use substate_cli.Replay.Code.{CodeRegistry, AllMaps}
use substate_cli.Replay.Code.Interleaved.{
  Call, all_calls, Interleaving, register_all, register_all-Distinct,
}
use substate_cli.Replay.Code.Registered.{
  first_registered, lookup-register_all-nil, IsShown, first_registered-IsShown,
}
use substate_cli.Replay.Config.{IsNumber}
use substate_cli.Replay.Actions.{
  TaskPool, ActionError, refused, range, read_arguments, returned, substates, read_arguments-range,
}

-- A key-value store: `OpenFile`, `Put` and `Get` of LevelDB, by keys that are texts.
pub record CodeStore : Type 1 where
  pub State : Type 0
  pub Key : Type 0
  pub key_of : Address → Key
  pub open_file : State → Option State
  pub put : Key → Code → State → Option State
  pub get : Key → State → Option Code

-- What the program relies on: opening changes no reads, a key that is put is read back, others stay,
-- and different addresses have different texts.
pub record IsLawful (S : CodeStore) : Type 0 where
  pub get-open_file : (k : S.Key) (s t : S.State) → S.open_file s ≡ some t → S.get k t ≡ S.get k s
  pub get-put_same :
      (k : S.Key) (c : Code) (s t : S.State) → S.put k c s ≡ some t → S.get k t ≡ some c
  pub get-put_other :
      (a b : Address) (c : Code) (s t : S.State)
      → a ≢ b
      → S.put (S.key_of a) c s ≡ some t
      → S.get (S.key_of b) t ≡ S.get (S.key_of b) s

-- The registry's code of an address, or what the database had.
abbrev pub written : Option Code → Option Code → Option Code
written none before = before
written (some code) before = some code

module _ (S : CodeStore) where
  -- The loop of `writeContracts`; `none` is `log.Fatal`, which ends the program.
  unfoldable pub write_registry : CodeRegistry → S.State → Option S.State
  write_registry [] db = some db
  write_registry ((account, code) ∷ registry) db = elim (S.put (S.key_of account) code db) [
    | none ↦ none
    | some db' ↦ write_registry registry db'
  ]

  -- `writeContracts`
  unfoldable pub write_contracts : CodeRegistry → S.State → Option S.State
  unfolding write_registry
  write_contracts registry db = elim (S.open_file db) [
    | none ↦ none
    | some opened ↦ write_registry registry opened
  ]

  -- `getCodeAction`, given the order in which the calls of `registerContract` take the mutex: the
  -- database after it, and the error that it returns. The codes are written also where the pool
  -- returns an error.
  unfoldable pub get_code_action :
      TaskPool → List Call → List (List ℕ) → S.State → Option (S.State × Option ActionError)
  unfolding write_contracts read_arguments register_all
  get_code_action pool order args db = elim (read_arguments args) [
    | refused e ↦ some (db, some e)
    | range first last ↦ elim (write_contracts (register_all order []) db) [
      | none ↦ none
      | some db' ↦ some (db', returned (pool.error first last))
    ]
  ]

  module _ (lawful : IsLawful S) where
    get-write_registry :
        (a : Address) (registry : CodeRegistry) (db : S.State) {db' : S.State}
        → Distinct registry
        → write_registry registry db ≡ some db'
        → S.get (S.key_of a) db' ≡ written (lookup a registry) (S.get (S.key_of a) db)
    unfolding write_registry lookup
    get-write_registry a [] db d e = ap (S.get (S.key_of a)) (sym (some-injective _ _ e))
    get-write_registry a ((k, code) ∷ registry) db d e =
        elim (Option-cases (S.put (S.key_of k) code db)) [
          | inl failed ↦ absurd (ground (arith, failed))
          | inr (mid, put_ok) ↦
              let rest = get-write_registry a registry mid d.1 (rw (put_ok, write_registry) at e) in
              elim (Bool-cases (k == a)) [
                | inl here ↦
                    let same : k ≡ a = (nat_eqb_iff k a).0 here in
                    let none_later : lookup a registry ≡ none =
                      ap (λ x. lookup x registry) (sym same) ∙ d.0 in
                    let now : S.get (S.key_of a) mid ≡ some code =
                      ap (λ x. S.get (S.key_of x) mid) (sym same)
                      ∙ lawful.get-put_same (S.key_of k) code db mid put_ok in
                    rw here (rest ∙ (rw (none_later, now) refl))
                | inr other ↦
                    let kept =
                      lawful.get-put_other k a code db mid (λ q. cc (other, (nat_eqb_iff k a).1 q))
                        put_ok in
                    rw (other, ← kept) rest
              ]
        ]

    get-write_contracts :
        (a : Address) (registry : CodeRegistry) (db : S.State) {db' : S.State}
        → Distinct registry
        → write_contracts registry db ≡ some db'
        → S.get (S.key_of a) db' ≡ written (lookup a registry) (S.get (S.key_of a) db)
    unfolding write_contracts
    get-write_contracts a registry db d e = elim (Option-cases (S.open_file db)) [
      | inl failed ↦ absurd (ground (arith, failed))
      | inr (opened, ok) ↦
          get-write_registry a registry opened d (rw (ok, write_contracts) at e)
          ∙ ap (written (lookup a registry)) (lawful.get-open_file (S.key_of a) db opened ok)
    ]

    -- Let the store be lawful, the two arguments block numbers, the first not larger than the last, and
    -- no allocation of the transactions that the pool hands out have a key twice, and let their tasks
    -- call `registerContract` in any order that keeps each task's own. If the action ends without a
    -- fatal error, then whatever the pool returns, the database has at each address the first code
    -- that is not empty among these calls for it, and what it had before if there is none. Such a
    -- code is one that an account of a transaction has at the address, and there is one if any
    -- account has a code there that is not empty.
    pub get-get_code_action :
        (pool : TaskPool) (first_arg last_arg : List ℕ) (first last : ℕ) (a : Address)
        (order : List Call) (db db' : S.State) (err : Option ActionError)
        → IsNumber first_arg first
        → IsNumber last_arg last
        → first ≤ last
        → AllMaps (substates (pool.handed first last))
        → Interleaving (all_calls (substates (pool.handed first last))) order
        → get_code_action pool order (first_arg ∷ last_arg ∷ []) db ≡ some (db', err)
        → (S.get (S.key_of a) db' ≡ written (first_registered a order) (S.get (S.key_of a) db))
          × IsShown a (substates (pool.handed first last)) (first_registered a order)
    unfolding get_code_action
    get-get_code_action pool first_arg last_arg first last a order db db' err f l h d i e =
        let registry = register_all order [] in
        let ran =
          rw (read_arguments-range first_arg last_arg first last f l h, get_code_action) at e in
        elim (Option-cases (write_contracts registry db)) [
          | inl failed ↦ absurd (ground (arith, failed))
          | inr (made, ok) ↦
              let same : made ≡ db' =
                ap (λ (r : S.State × Option ActionError). r.0)
                  (some-injective _ _ (rw ok at ran)) in
              (
                ap (S.get (S.key_of a)) (sym same)
                    ∙ get-write_contracts a registry db (register_all-Distinct order [] tt) ok
                    ∙ ap (λ o. written o (S.get (S.key_of a) db)) (lookup-register_all-nil a order),
                first_registered-IsShown a (substates (pool.handed first last)) order d i,
              )
        ]
