-- ===== src/Replay/Diff.antt =====
-- cmd/substate-cli/replay/replay.go: the lines that say how two outputs differ.
-- A label is a value instead of the text that `Sprintf` makes of it; a balance is never nil.
pub mod Results
pub mod Allocations
use substate_cli.Prelude.{
  ℕ, suc, Bool, true, false, Option, none, some, List, [], ◌∷◌, ◌++◌, Eq, ◌==◌, nat_eq, length,
  if◌then◌else◌,
}
use substate_cli.Prelude.Int.{ℤ, int_eq}
use substate_cli.GoMap.{GoMap, lookup, has}
use substate_cli.Types.{Address, Hash, Code, Account, Alloc, Log}
use substate_cli.Substate.{Result}
use substate_cli.Replay.Fork.{bytes_equal}

pub data Label : Type 0 where
  status contract_address gas_usage log_bloom_filter log_size alloc_size : Label
  log_address log_topics_size log_data : ℕ → Label
  log_topic : ℕ → ℕ → Label
  account_nonce account_balance account_code storage_size : Address → Label
  storage_slot : Address → Hash → Label

-- What stands after `want:` and `have:`.
pub data Value : Type 0 where
  number : ℕ → Value
  bytes : Code → Value
  integer : ℤ → Value

pub data Line : Type 0 where
  different : Label → Value → Value → Line
  missing_key extra_key : Address → Line
  misses_slot extra_slot : Address → Hash → Line

-- `printIfDifferent`: the lines, and whether there is a difference.
unfoldable pub print_if_different : Label → ℕ → ℕ → List Line × Bool
print_if_different label want have =
    if want == have then ([], false) else (different label (number want) (number have) ∷ [], true)

-- `printIfDifferentBytes`
unfoldable pub print_if_different_bytes : Label → Code → Code → List Line × Bool
unfolding bytes_equal
print_if_different_bytes label want have =
    if bytes_equal want have
    then ([], false)
    else (different label (bytes want) (bytes have) ∷ [], true)

-- `printIfDifferentBigInt`, for two integers that are not nil.
unfoldable pub print_if_different_big_int : Label → ℤ → ℤ → List Line × Bool
print_if_different_big_int label want have =
    if want == have then ([], false) else (different label (integer want) (integer have) ∷ [], true)

-- `for i := range want { ... want[i], have[i] ... }`; `none` is the panic on an index out of range.
unfoldable pub print_each {ℓ} :
    {A : Type ℓ} → (ℕ → A → A → Option (List Line)) → ℕ → List A → List A → Option (List Line)
print_each print i [] have = some []
print_each print i (w ∷ want) [] = none
print_each print i (w ∷ want) (h ∷ have) = elim (print i w h) [
  | none ↦ none
  | some first ↦ elim (print_each print (suc i) want have) [
    | none ↦ none
    | some rest ↦ some (first ++ rest)
  ]
]

-- `printLogDiffSummary`, of the log with the index `i`.
unfoldable pub print_log_diff_summary : ℕ → Log → Log → Option (List Line)
unfolding print_if_different print_if_different_bytes print_each
print_log_diff_summary i want have =
    let addresses = (print_if_different (log_address i) want.address have.address).0 in
    let (sizes, differ) =
      print_if_different (log_topics_size i) (length want.topics) (length have.topics) in
    let topics : Option (List Line) =
      if differ
      then some []
      else print_each (λ j w h. some (print_if_different (log_topic i j) w h).0) 0 want.topics
          have.topics in
    elim topics [
      | none ↦ none
      | some ts ↦ some (
          addresses
          ++ (sizes ++ (ts ++ (print_if_different_bytes (log_data i) want.bytes have.bytes).0)))
    ]

-- `PrintResultDiffSummary`
unfoldable pub print_result_diff_summary : Result → Result → Option (List Line)
unfolding print_if_different print_log_diff_summary print_each
print_result_diff_summary want have =
    let (sizes, differ) = print_if_different log_size (length want.logs) (length have.logs) in
    let logs : Option (List Line) =
      if differ then some [] else print_each print_log_diff_summary 0 want.logs have.logs in
    elim logs [
      | none ↦ none
      | some ls ↦ some (
          (print_if_different status want.status have.status).0
          ++ ((print_if_different contract_address want.contract_address have.contract_address).0
              ++ ((print_if_different gas_usage want.gas_used have.gas_used).0
                  ++ ((print_if_different log_bloom_filter want.bloom have.bloom).0
                      ++ (sizes ++ ls)))))
    ]

module _ {K V : Type 0} ⦃e : Eq K⦄ where
  -- `for key := range m { if _, present := n[key]; !present { ... } }`
  unfoldable pub print_absent : (K → Line) → GoMap K V → GoMap K V → List Line
  print_absent line [] n = []
  print_absent line ((k, v) ∷ m) n =
      let rest = print_absent line m n in if has k n then rest else line k ∷ rest

  -- `for key, is := range have { if should, present := want[key]; present { ... } }`
  unfoldable pub print_common : (K → V → V → List Line) → GoMap K V → GoMap K V → List Line
  print_common print want [] = []
  print_common print want ((k, is) ∷ have) = elim (lookup k want) [
    | none ↦ print_common print want have
    | some should ↦ print k should is ++ print_common print want have
  ]

-- `printAccountDiffSummary`, of the account at `a`.
unfoldable pub print_account_diff_summary : Address → Account → Account → List Line
unfolding print_if_different print_if_different_big_int print_if_different_bytes print_absent
    print_common
print_account_diff_summary a want have =
    (print_if_different (account_nonce a) want.nonce have.nonce).0
    ++ ((print_if_different_big_int (account_balance a) want.balance have.balance).0
        ++ ((print_if_different_bytes (account_code a) want.code have.code).0
            ++ ((print_if_different (storage_size a) (length want.storage) (length have.storage)).0
                ++ (print_absent (misses_slot a) want.storage have.storage
                    ++ (print_absent (extra_slot a) have.storage want.storage
                        ++ print_common
                            (λ k should is. (print_if_different (storage_slot a k) should is).0)
                            want.storage have.storage)))))

-- `PrintAllocationDiffSummary`
unfoldable pub print_allocation_diff_summary : Alloc → Alloc → List Line
unfolding print_if_different print_absent print_common print_account_diff_summary
print_allocation_diff_summary want have =
    (print_if_different alloc_size (length want) (length have)).0
    ++ (print_absent missing_key want have
        ++ (print_absent extra_key have want ++ print_common print_account_diff_summary want have))
