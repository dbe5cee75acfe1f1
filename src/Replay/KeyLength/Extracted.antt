-- ===== src/Replay/KeyLength/Extracted.antt =====
-- What the extractor of key_stats.go finds, against the accounts of a transaction.
use substate_cli.Prelude.{
  ℕ, ◌+◌, ◌≡◌, refl, ◌∙◌, Bool, false, ◌||◌, List, [], ◌∷◌, arith, nat_eq, if◌then◌else◌,
}
use substate_cli.GoMap.{GoMap, lookup, has}
use substate_cli.Types.{Hash, Alloc}
use substate_cli.Substate.{Substate}
use substate_cli.Replay.Statistic.Counts.{contains, contains-append}
use substate_cli.Replay.KeyLength.{storage_keys, alloc_keys, extract_keys}

-- Some account of the allocation has a slot with the key.
abbrev pub has_key : Hash → Alloc → Bool
has_key key [] = false
has_key key ((_, account) ∷ alloc) = has key account.storage || has_key key alloc

-- The number of transactions with an account, before or after them, that has the key.
abbrev pub showing : Hash → List Substate → ℕ
showing key [] = 0
showing key (st ∷ sts) =
    (if has_key key st.input_alloc || has_key key st.output_alloc then 1 else 0) + showing key sts

contains-storage_keys :
    (key : Hash) (m : GoMap Hash Hash) → contains key (storage_keys m) ≡ has key m
unfolding storage_keys has lookup
contains-storage_keys key [] = refl
contains-storage_keys key ((k, v) ∷ m) = ground (arith, contains-storage_keys key m)

contains-alloc_keys :
    (key : Hash) (alloc : Alloc) → contains key (alloc_keys alloc) ≡ has_key key alloc
unfolding alloc_keys
contains-alloc_keys key [] = refl
contains-alloc_keys key ((a, account) ∷ alloc) =
    contains-append key (storage_keys account.storage) (alloc_keys alloc)
    ∙ rw (contains-storage_keys key account.storage, contains-alloc_keys key alloc) refl

-- The extractor finds a key exactly if an account of either allocation has it.
pub contains-extract_keys :
    (key : Hash) (st : Substate)
    → contains key (extract_keys st) ≡ (has_key key st.input_alloc || has_key key st.output_alloc)
unfolding extract_keys
contains-extract_keys key st =
    contains-append key (alloc_keys st.input_alloc) (alloc_keys st.output_alloc)
    ∙ rw (contains-alloc_keys key st.input_alloc, contains-alloc_keys key st.output_alloc) refl
