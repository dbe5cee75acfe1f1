-- ===== src/Replay/Storage/Lines.antt =====
-- The lines of `getStorageUpdateSizeTask`, account by account.
use substate_cli.Prelude.{ℕ, ◌≡◌, refl, ◌∙◌, Option, none, some, List, [], ◌∷◌, arith, nat_eq}
use substate_cli.GoMap.{GoMap, lookup, Distinct}
use substate_cli.Types.{Address, Hash, Account}
use substate_cli.Substate.{Substate}
use substate_cli.Replay.Accounts.{lines_of, lines_of-print_accounts}
use substate_cli.Replay.Storage.{
  Metric, output_metric, input_metric, compute_storage_sizes, get_storage_update_size_task,
}

-- The storage of an account, empty where there is no account.
abbrev pub storage_of : Option Account → GoMap Hash Hash
storage_of none = []
storage_of (some account) = account.storage

-- The line of an account that the transaction has before or after it.
abbrev pub line_of : ℕ → ℕ → Substate → Address → List Metric
line_of block tx st a =
    let line : Metric = record {
      block = block;
      timestamp = st.env.timestamp;
      tx = tx;
      wallet = a;
      sizes =
          compute_storage_sizes (storage_of (lookup a st.input_alloc))
            (storage_of (lookup a st.output_alloc));
    } in
    elim (lookup a st.output_alloc) [
      | some _ ↦ line ∷ []
      | none ↦ elim (lookup a st.input_alloc) [ some _ ↦ line ∷ [] | none ↦ [] ]
    ]

-- If neither allocation has a key twice, the task prints exactly one line for each account of
-- either allocation and none for another, and the line compares the account's storage in the
-- input with the one in the output, an absent account's storage being empty.
pub get_storage_update_size_task-lines :
    (block tx : ℕ) (st : Substate) (a : Address)
    → Distinct st.output_alloc
    → Distinct st.input_alloc
    → lines_of (λ (l : Metric). l.wallet) a (get_storage_update_size_task block tx st)
      ≡ line_of block tx st a
unfolding get_storage_update_size_task output_metric input_metric
get_storage_update_size_task-lines block tx st a d e =
    lines_of-print_accounts (output_metric block tx st) (input_metric block tx st)
      (λ (l : Metric). l.wallet) (λ a acc. refl) (λ a acc. refl) a st.output_alloc st.input_alloc d
      e
    ∙ ground arith
