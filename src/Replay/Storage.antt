-- ===== src/Replay/Storage.antt =====
-- cmd/substate-cli/replay/storage.go: the sizes of the storage before and after a transaction.
-- A uint64 and an int64 are their bit patterns, numbers below 2 ^ 64.
pub mod Count
pub mod Lines
use substate_cli.Prelude.{
  ℕ, ◌+◌, ◌-◌, ◌*◌, ◌%◌, ◌^◌, Bool, true, false, ◌&&◌, not, Option, none, some, List, [], ◌∷◌, ◌==◌,
  nat_eq, ltb, if◌then◌else◌,
}
use substate_cli.Prelude.Int.{ℤ, pos, negsuc}
use substate_cli.GoMap.{GoMap, range, lookup, has}
use substate_cli.Types.{Address, Hash, zero_hash, Account}
use substate_cli.Substate.{Substate}
use substate_cli.Replay.Accounts.{print_accounts}

abbrev pub word : ℕ
word = 2 ^ 64

-- The integer that an int64 pattern stands for.
abbrev pub signed : ℕ → ℤ
signed w = if ltb w (2 ^ 63) then pos w else negsuc (word - w - 1)

abbrev increment : ℕ → ℕ
increment n = (n + 1) % word

abbrev decrement : ℕ → ℕ
decrement n = (n + word - 1) % word

pub record Sizes : Type 0 where
  pub delta_size : ℕ
  pub in_update_size : ℕ
  pub out_update_size : ℕ

abbrev is_empty : Hash → Bool
is_empty value = value == zero_hash

-- The body of the loop over `outUpdateSet`.
unfoldable pub count_out : GoMap Hash Hash → Sizes → Hash → Hash → Sizes
count_out in_update_set s address out_value =
    let delta : ℕ = elim (lookup address in_update_set) [
      | some in_value ↦
          if is_empty in_value && not (is_empty out_value)
          then increment s.delta_size
          else if not (is_empty in_value) && is_empty out_value
          then decrement s.delta_size
          else s.delta_size
      | none ↦ if not (is_empty out_value) then increment s.delta_size else s.delta_size
    ] in
    record {
      delta_size = delta;
      in_update_size = s.in_update_size;
      out_update_size =
          if not (is_empty out_value) then increment s.out_update_size else s.out_update_size;
    }

-- The body of the loop over `inUpdateSet`.
unfoldable pub count_in : GoMap Hash Hash → Sizes → Hash → Hash → Sizes
count_in out_update_set s address in_value = record {
  delta_size =
      if not (has address out_update_set) && not (is_empty in_value)
      then decrement s.delta_size
      else s.delta_size;
  in_update_size = if not (is_empty in_value) then increment s.in_update_size else s.in_update_size;
  out_update_size = s.out_update_size;
}

-- `wordSize`
abbrev pub word_size : ℕ
word_size = 32

-- `computeStorageSizes`
unfoldable pub compute_storage_sizes : GoMap Hash Hash → GoMap Hash Hash → Sizes
compute_storage_sizes in_update_set out_update_set =
    let start : Sizes = record { delta_size = 0; in_update_size = 0; out_update_size = 0 } in
    let s =
      range (count_in out_update_set) in_update_set
        (range (count_out in_update_set) out_update_set start) in
    record {
      delta_size = (s.delta_size * word_size) % word;
      in_update_size = (s.in_update_size * word_size) % word;
      out_update_size = (s.out_update_size * word_size) % word;
    }

-- A line `metric: ...` of a task.
pub record Metric : Type 0 where
  pub block : ℕ
  pub timestamp : ℕ
  pub tx : ℕ
  pub wallet : Address
  pub sizes : Sizes

-- The line for an account of the output.
unfoldable pub output_metric : ℕ → ℕ → Substate → Address → Account → Metric
output_metric block tx st wallet output_account = record {
  block = block;
  timestamp = st.env.timestamp;
  tx = tx;
  wallet = wallet;
  sizes = elim (lookup wallet st.input_alloc) [
    | some input_account ↦ compute_storage_sizes input_account.storage output_account.storage
    | none ↦ compute_storage_sizes [] output_account.storage
  ];
}

-- The line for an account that only the input has.
unfoldable pub input_metric : ℕ → ℕ → Substate → Address → Account → Metric
input_metric block tx st wallet input_account = record {
  block = block;
  timestamp = st.env.timestamp;
  tx = tx;
  wallet = wallet;
  sizes = compute_storage_sizes input_account.storage [];
}

-- `getStorageUpdateSizeTask`, with its lines in the order of printing.
unfoldable pub get_storage_update_size_task : ℕ → ℕ → Substate → List Metric
get_storage_update_size_task block tx st =
    print_accounts (output_metric block tx st) (input_metric block tx st) st.output_alloc
      st.input_alloc
