-- ===== src/Replay/Fork/Verdict.antt =====
-- What the checks of the account states find out, and the verdict on a replayed transaction.
use Prim.Native.String.{String}
use text.Mathlib.TextEquality.{eq_iff}
use substate_cli.Prelude.{
  ◌≡◌, ◌≢◌, ◌↔◌, refl, ap, inl, inr, Bool, true, false, ◌&&◌, Option, none, some, [], ◌∷◌, arith,
  ◌==◌, nat_eq, nat_eqb_iff, length, ltb, if◌then◌else◌, Bool-cases,
}
use substate_cli.GoMap.{GoMap, lookup, Distinct}
use substate_cli.Types.{Address, Hash, Code, Account, Alloc}
use substate_cli.Types.Maps.{HasMaps, HasMaps-lookup}
use substate_cli.Substate.{Result, receipt_successful}
use substate_cli.Replay.Fork.{
  bytes_equal, check_storage, check_account, check_accounts, check_alloc, err_invalid_alloc,
  err_more_gas, err_less_gas, err_misc, ReplayForkStat, stat, compare_outputs,
}
use substate_cli.Replay.Fork.SameMap.{Matches, check_all, check_all_iff}

-- The same nonce, the same code, and at each key the same slot or none; the balance is free.
pub record SameAccount (v w : Account) : Type 0 where
  pub nonces : v.nonce ≡ w.nonce
  pub codes : v.code ≡ w.code
  pub slots : (k : Hash) → lookup k v.storage ≡ lookup k w.storage

-- Neither allocation has the address, or both do and the accounts are the same.
abbrev pub SameAt : Option Account → Option Account → Type 0
SameAt none none = Unit
SameAt (some v) (some w) = SameAccount v w
SameAt none (some w) = ⊥
SameAt (some v) none = ⊥

pub bytes_equal_iff : (b c : Code) → (bytes_equal b c ≡ true) ↔ (b ≡ c)
unfolding bytes_equal
bytes_equal_iff [] [] = ground arith
bytes_equal_iff [] (y ∷ c) = ground arith
bytes_equal_iff (x ∷ b) [] = ground arith
bytes_equal_iff (x ∷ b) (y ∷ c) = ground (arith, bytes_equal_iff b c, nat_eqb_iff x y)

check_storage-eq : (m n : GoMap Hash Hash) → check_storage m n ≡ check_all (λ v w. v == w) m n
unfolding check_storage check_all
check_storage-eq [] n = refl
check_storage-eq ((k, v) ∷ m) n = ground (arith, check_storage-eq m n)

check_accounts-eq : (m n : Alloc) → check_accounts m n ≡ check_all check_account m n
unfolding check_accounts check_all
check_accounts-eq [] n = refl
check_accounts-eq ((k, v) ∷ m) n = ground (arith, check_accounts-eq m n)

Matches-equal_iff : (o p : Option Hash) → Matches (λ v w. v == w) o p ↔ (o ≡ p)
Matches-equal_iff none none = (λ _. refl, λ _. tt)
Matches-equal_iff (some v) (some w) =
    (λ h. ap some ((nat_eqb_iff v w).0 h), λ e. ground (arith, nat_eqb_iff v w))
Matches-equal_iff none (some w) = (λ h. elim h [ ], λ e. absurd cc)
Matches-equal_iff (some v) none = (λ h. elim h [ ], λ e. absurd cc)

check_storage_iff :
    (m n : GoMap Hash Hash)
    → Distinct m
    → Distinct n
    → ((length m == length n && check_storage m n) ≡ true) ↔ ((k : Hash) → lookup k m ≡ lookup k n)
check_storage_iff m n d f =
    let all = check_all_iff (λ v w. v == w) m n d f in
    rw (check_storage-eq m n) (
      λ h k. (Matches-equal_iff (lookup k m) (lookup k n)).0 (all.0 h k),
      λ h. all.1 (λ k. (Matches-equal_iff (lookup k m) (lookup k n)).1 (h k)),
    )

check_account_iff :
    (v w : Account)
    → Distinct v.storage
    → Distinct w.storage
    → (check_account v w ≡ true) ↔ SameAccount v w
unfolding check_account
check_account_iff v w d f =
    let slots = check_storage_iff v.storage w.storage d f in
    (
      λ h. record {
        nonces = ground (arith, nat_eqb_iff v.nonce w.nonce);
        codes = ground (arith, bytes_equal_iff v.code w.code);
        slots = slots.0 (ground arith);
      },
      λ s.
          let found = slots.1 s.slots in
          ground (
            arith,
            found,
            s.nonces,
            s.codes,
            nat_eqb_iff v.nonce w.nonce,
            bytes_equal_iff v.code w.code,
          ),
    )

Matches-same_iff :
    (o p : Option Account)
    → ((v : Account) → o ≡ some v → Distinct v.storage)
    → ((w : Account) → p ≡ some w → Distinct w.storage)
    → Matches check_account o p ↔ SameAt o p
Matches-same_iff none none d f = (λ _. tt, λ _. tt)
Matches-same_iff (some v) (some w) d f = check_account_iff v w (d v refl) (f w refl)
Matches-same_iff none (some w) d f = (λ h. elim h [ ], λ h. elim h [ ])
Matches-same_iff (some v) none d f = (λ h. elim h [ ], λ h. elim h [ ])

-- For two allocations without a key twice, and without a slot twice in an account, the checks of
-- the account states pass exactly if both have the same addresses and at each the same nonce, the
-- same code and the same slots; balances may differ.
pub check_alloc_iff :
    (output_alloc evm_alloc : Alloc)
    → Distinct output_alloc
    → Distinct evm_alloc
    → HasMaps output_alloc
    → HasMaps evm_alloc
    → (check_alloc output_alloc evm_alloc ≡ true)
      ↔ ((a : Address) → SameAt (lookup a output_alloc) (lookup a evm_alloc))
unfolding check_alloc
check_alloc_iff m n d f p q =
    let all = check_all_iff check_account m n d f in
    let at = λ (a : Address).
      Matches-same_iff (lookup a m) (lookup a n) (HasMaps-lookup m a p) (HasMaps-lookup n a q) in
    rw (check_accounts-eq m n) (λ h a. (at a).0 (all.0 h a), λ h. all.1 (λ a. (at a).1 (h a)))

-- What the checks of a transaction that succeeded both times find, past the account states.
abbrev pub gas_verdict : Result → Result → Option ReplayForkStat
gas_verdict output_result evm_result =
    if ltb output_result.gas_used evm_result.gas_used
    then stat err_more_gas
    else if ltb evm_result.gas_used output_result.gas_used
    then stat err_less_gas
    else stat err_misc

stat-injective : (s t : String) → stat s ≡ stat t → s ≡ t
stat-injective s t e = ap (λ (o : Option ReplayForkStat). text_of o) e
  where
    text_of : Option ReplayForkStat → String
    text_of none = s
    text_of (some r) = r.err_str

gas_verdict-ne-invalid :
    (output_result evm_result : Result)
    → gas_verdict output_result evm_result ≢ stat err_invalid_alloc
gas_verdict-ne-invalid r s e = ground (
  arith,
  stat-injective err_more_gas err_invalid_alloc,
  stat-injective err_less_gas err_invalid_alloc,
  stat-injective err_misc err_invalid_alloc,
  eq_iff err_more_gas err_invalid_alloc,
  eq_iff err_less_gas err_invalid_alloc,
  eq_iff err_misc err_invalid_alloc,
)

module _ (result_equal : Result → Result → Bool) (alloc_equal : Alloc → Alloc → Bool) where
  -- No statistic is sent exactly if both the results and the allocations are equal.
  pub compare_outputs-none_iff :
      (output_result : Result) (output_alloc : Alloc) (evm_result : Result) (evm_alloc : Alloc)
      (vm_error : String)
      → (compare_outputs result_equal alloc_equal output_result output_alloc evm_result evm_alloc
            vm_error
          ≡ none)
        ↔ ((result_equal output_result evm_result && alloc_equal output_alloc evm_alloc) ≡ true)
  unfolding compare_outputs
  compare_outputs-none_iff r m s n vm_error = (λ h. ground arith, λ h. ground arith)

  -- Let both runs succeed, the results or the allocations not be equal, no allocation have a key
  -- twice and no account a slot twice. Then "invalid alloc" is sent exactly if the allocations do
  -- not have, at the same addresses, the same nonces, codes and slots.
  pub compare_outputs-invalid_alloc_iff :
      (output_result : Result) (output_alloc : Alloc) (evm_result : Result) (evm_alloc : Alloc)
      (vm_error : String)
      → output_result.status ≡ receipt_successful
      → evm_result.status ≡ receipt_successful
      → (result_equal output_result evm_result && alloc_equal output_alloc evm_alloc) ≡ false
      → Distinct output_alloc
      → Distinct evm_alloc
      → HasMaps output_alloc
      → HasMaps evm_alloc
      → (compare_outputs result_equal alloc_equal output_result output_alloc evm_result evm_alloc
            vm_error
          ≡ stat err_invalid_alloc)
        ↔ (¬ ((a : Address) → SameAt (lookup a output_alloc) (lookup a evm_alloc)))
  unfolding compare_outputs
  compare_outputs-invalid_alloc_iff r m s n vm_error hr hs differ d f p q =
      let same = check_alloc_iff m n d f p q in
      (
        λ sent all. gas_verdict-ne-invalid r s (ground (arith, same.1 all)),
        λ other. elim (Bool-cases (check_alloc m n)) [
          | inl passed ↦ absurd (other (same.0 passed))
          | inr failed ↦ ground arith
        ],
      )
