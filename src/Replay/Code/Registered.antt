-- ===== src/Replay/Code/Registered.antt =====
-- The code that the registry has at an address, against the codes that the transactions show there.
use mathlib.Core.Option.{some-injective}
use substate_cli.Prelude.{
  ℕ, ◌+◌, ◌<◌, ◌≡◌, refl, sym, ◌∙◌, inl, inr, subst, true, ◌&&◌, Option, none, some, List, [], ◌∷◌,
  ◌++◌, arith, length, ltb, ◌==◌, nat_eq, nat_eqb_iff, if◌then◌else◌, Bool-cases,
}
use substate_cli.GoMap.{lookup, has, Distinct}
use substate_cli.GoMap.Laws.{lookup-put}
use substate_cli.Types.{Address, Code, Account, Alloc}
use substate_cli.Substate.{Substate}
use substate_cli.Replay.Fork.{bytes_equal}
use substate_cli.Replay.Fork.Verdict.{bytes_equal_iff}
use substate_cli.Replay.Code.{CodeRegistry, register_contract, AllMaps}
use substate_cli.Replay.Code.Interleaved.{
  Call, calls_of, task_calls, all_calls, Interleaving, register_all, registering, in_all,
  registering-Interleaving,
}

-- The first call for the address with a code that is not empty.
abbrev pub first_registered : Address → List Call → Option Code
first_registered a [] = none
first_registered a ((b, code) ∷ order) =
    if b == a && ltb 0 (length code) then some code else first_registered a order

abbrev or_else : Option Code → Option Code → Option Code
or_else (some code) other = some code
or_else none other = other

lookup-register_contract :
    (a b : Address) (code : Code) (registry : CodeRegistry)
    → lookup a (register_contract b code registry)
      ≡ or_else (lookup a registry) (if b == a && ltb 0 (length code) then some code else none)
unfolding register_contract has
lookup-register_contract a b code registry =
    ground (arith, lookup-put a b code registry, nat_eqb_iff b a)

lookup-register_all :
    (a : Address) (order : List Call) (registry : CodeRegistry)
    → lookup a (register_all order registry)
      ≡ or_else (lookup a registry) (first_registered a order)
unfolding register_all
lookup-register_all a [] registry = ground arith
lookup-register_all a ((b, code) ∷ order) registry =
    lookup-register_all a order (register_contract b code registry)
    ∙ rw (lookup-register_contract a b code registry) (ground arith)

pub lookup-register_all-nil :
    (a : Address) (order : List Call) → lookup a (register_all order []) ≡ first_registered a order
lookup-register_all-nil a order = lookup-register_all a order [] ∙ (unfold lookup in refl)

first_registered-registering :
    (a : Address) (order : List Call) (code : Code)
    → first_registered a order ≡ some code
    → (0 < length code) × (0 < registering a code order)
first_registered-registering a [] code e = absurd cc
first_registered-registering a ((b, c) ∷ order) code e =
    elim (Bool-cases (b == a && ltb 0 (length c))) [
      | inl here ↦
          let same : c ≡ code = some-injective _ _ (rw here at e) in
          let long : 0 < length c = ground (arith, here) in
          let equal : bytes_equal c code ≡ true = (bytes_equal_iff c code).1 same in
          (subst (λ (x : Code). 0 < length x) same long, ground (arith, here, equal))
      | inr other ↦
          let (long, later) = first_registered-registering a order code (rw other at e) in
          (long, omega (arith, later))
    ]

first_registered-none :
    (a : Address) (order : List Call) (code : Code)
    → first_registered a order ≡ none
    → 0 < length code
    → registering a code order ≡ 0
first_registered-none a [] code e long = refl
first_registered-none a ((b, c) ∷ order) code e long =
    elim (Bool-cases (b == a && ltb 0 (length c))) [
      | inl here ↦ absurd (cc (rw here at e))
      | inr other ↦
          let later = first_registered-none a order code (rw other at e) long in
          elim (Bool-cases (bytes_equal c code)) [
            | inr differ ↦ ground (arith, differ, later)
            | inl same ↦
                let equal = (bytes_equal_iff c code).0 same in
                let full : ltb 0 (length c) ≡ true =
                  subst (λ (x : Code). ltb 0 (length x) ≡ true) (sym equal)
                    (ground (arith, long)) in
                ground (arith, other, full, later)
          ]
    ]

-- Whether an account that is there has the code.
abbrev pub code_at : Code → Option Account → ℕ
code_at code none = 0
code_at code (some account) = if bytes_equal account.code code then 1 else 0

-- In how many of the allocations of the transactions the account at the address has the code.
abbrev pub showing : Address → Code → List Substate → ℕ
showing a code [] = 0
showing a code (st ∷ sts) =
    code_at code (lookup a st.output_alloc)
    + code_at code (lookup a st.input_alloc)
    + showing a code sts

registering-append :
    (a : Address) (code : Code) (xs ys : List Call)
    → registering a code (xs ++ ys) ≡ registering a code xs + registering a code ys
registering-append a code [] ys = omega arith
registering-append a code (x ∷ xs) ys = omega (arith, registering-append a code xs ys)

registering-calls_of :
    (a : Address) (code : Code) (alloc : Alloc)
    → Distinct alloc
    → registering a code (calls_of alloc) ≡ code_at code (lookup a alloc)
unfolding calls_of lookup
registering-calls_of a code [] d = refl
registering-calls_of a code ((b, info) ∷ alloc) d =
    ground (arith, registering-calls_of a code alloc d.1, d.0, nat_eqb_iff b a)

in_all-showing :
    (a : Address) (code : Code) (sts : List Substate)
    → AllMaps sts
    → in_all a code (all_calls sts) ≡ showing a code sts
unfolding task_calls
in_all-showing a code [] d = refl
in_all-showing a code (st ∷ sts) (d, e, ds) = omega (
  arith,
  registering-append a code (calls_of st.output_alloc) (calls_of st.input_alloc),
  registering-calls_of a code st.output_alloc d,
  registering-calls_of a code st.input_alloc e,
  in_all-showing a code sts ds,
)

-- A code that is not empty and that an account of a transaction has at the address; none only if no
-- account has such a code there.
abbrev pub IsShown : Address → List Substate → Option Code → Type 0
IsShown a sts (some code) = (0 < length code) × (0 < showing a code sts)
IsShown a sts none = (code : Code) → 0 < length code → showing a code sts ≡ 0

pub first_registered-IsShown :
    (a : Address) (sts : List Substate) (order : List Call)
    → AllMaps sts
    → Interleaving (all_calls sts) order
    → IsShown a sts (first_registered a order)
first_registered-IsShown a sts order d i = shown (first_registered a order) refl
  where
    same : (code : Code) → registering a code order ≡ showing a code sts
    same code = registering-Interleaving a code i ∙ in_all-showing a code sts d

    shown : (o : Option Code) → first_registered a order ≡ o → IsShown a sts o
    shown (some code) e =
        let (long, found) = first_registered-registering a order code e in
        (long, subst (λ n. 0 < n) (same code) found)
    shown none e = λ code long. sym (same code) ∙ first_registered-none a order code e long
