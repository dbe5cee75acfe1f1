-- ===== src/Replay/Code.antt =====
-- cmd/substate-cli/replay/code.go: the registry of contract codes.
pub mod Interleaved
pub mod Registered
use substate_cli.Prelude.{
  ◌≡◌, refl, ◌∙◌, Option, none, some, List, [], ◌∷◌, ◌++◌, ap, arith, ◌==◌, nat_eq, nat_eqb_iff,
  length, ltb, if◌then◌else◌,
}
use substate_cli.GoMap.{GoMap, range, lookup, has, put, Distinct}
use substate_cli.GoMap.Laws.{put-Distinct, range_inv, at_key, range_observe, lookup-put}
use substate_cli.Types.{Address, Code, Account}
use substate_cli.Substate.{Substate}

-- `CodeRegistry`; the mutex makes each registration one step.
abbrev pub CodeRegistry : Type 0
CodeRegistry = GoMap Address Code

-- `registerContract`
unfoldable pub register_contract : Address → Code → CodeRegistry → CodeRegistry
register_contract contract code registry =
    if ltb 0 (length code)
    then (if has contract registry then registry else put contract code registry)
    else registry

-- The body of the two loops of `getCodeTask`.
abbrev pub register_account : CodeRegistry → Address → Account → CodeRegistry
register_account registry account info = register_contract account info.code registry

-- `getCodeTask`: the codes of the output before those of the input.
unfoldable pub get_code_task : Substate → CodeRegistry → CodeRegistry
get_code_task st registry =
    range register_account st.input_alloc (range register_account st.output_alloc registry)

-- The tasks of the transactions, one after the other; Interleaved is on many at once.
unfoldable pub get_code_tasks : List Substate → CodeRegistry → CodeRegistry
get_code_tasks [] registry = registry
get_code_tasks (st ∷ rest) registry = get_code_tasks rest (get_code_task st registry)

-- The codes that the transactions show at an address: of each the output's, then the input's.
abbrev code_in : Option Account → List Code
code_in none = []
code_in (some account) = account.code ∷ []

abbrev pub codes_of : Address → List Substate → List Code
codes_of a [] = []
codes_of a (st ∷ rest) =
    code_in (lookup a st.output_alloc) ++ (code_in (lookup a st.input_alloc) ++ codes_of a rest)

-- The first that is not empty, unless one is known.
abbrev pub first_code : List Code → Option Code → Option Code
first_code [] known = known
first_code (code ∷ codes) (some c) = first_code codes (some c)
first_code ([] ∷ codes) none = first_code codes none
first_code ((b ∷ bs) ∷ codes) none = first_code codes (some (b ∷ bs))

abbrev pub AllMaps : List Substate → Type 0
AllMaps [] = Unit
AllMaps (st ∷ rest) = Distinct st.output_alloc × Distinct st.input_alloc × AllMaps rest

offer : Account → Option Code → Option Code
offer info known = first_code (info.code ∷ []) known

lookup-register_contract :
    (a : Address) (reg : CodeRegistry) (k : Address) (info : Account)
    → lookup a (register_contract k info.code reg)
      ≡ (if k == a then offer info (lookup a reg) else lookup a reg)
unfolding register_contract has offer
lookup-register_contract a reg k info =
    ground (arith, lookup-put a k info.code reg, nat_eqb_iff k a)

offered :
    (o : Option Account) (codes : List Code) (known : Option Code)
    → first_code codes (at_key offer o known) ≡ first_code (code_in o ++ codes) known
unfolding offer
offered none codes known = refl
offered (some info) codes known = ground arith

lookup-get_code_task :
    (a : Address) (st : Substate) (reg : CodeRegistry)
    → Distinct st.output_alloc
    → Distinct st.input_alloc
    → lookup a (get_code_task st reg)
      ≡ at_key offer
          (lookup a st.input_alloc)
          (at_key offer (lookup a st.output_alloc) (lookup a reg))
unfolding get_code_task
lookup-get_code_task a st reg d e =
    range_observe register_account (lookup a) a offer (lookup-register_contract a) st.input_alloc _
      e
    ∙ ap (at_key offer (lookup a st.input_alloc)) (
        range_observe register_account (lookup a) a offer (lookup-register_contract a)
          st.output_alloc reg d)

register_contract-Distinct :
    (reg : CodeRegistry) (k : Address) (code : Code)
    → Distinct reg
    → Distinct (register_contract k code reg)
unfolding register_contract
register_contract-Distinct reg k code d = ground (arith, put-Distinct k code reg d)

get_code_task-Distinct :
    (st : Substate) (reg : CodeRegistry) → Distinct reg → Distinct (get_code_task st reg)
unfolding get_code_task
get_code_task-Distinct st reg d =
    let keep = λ (r : CodeRegistry) (k : Address) (info : Account) (e : Distinct r).
      register_contract-Distinct r k info.code e in
    range_inv Distinct register_account keep st.input_alloc _
      (range_inv Distinct register_account keep st.output_alloc reg d)

pub get_code_tasks-Distinct :
    (sts : List Substate) (reg : CodeRegistry) → Distinct reg → Distinct (get_code_tasks sts reg)
unfolding get_code_tasks
get_code_tasks-Distinct [] reg d = d
get_code_tasks-Distinct (st ∷ rest) reg d =
    get_code_tasks-Distinct rest (get_code_task st reg) (get_code_task-Distinct st reg d)

-- If no allocation has a key twice, then after the tasks of any transactions, one after the
-- other, the registry has at each address the first code that is not empty
-- among those that the transactions show there, or the one that it had before.
pub lookup-get_code_tasks :
    (a : Address) (sts : List Substate) (reg : CodeRegistry)
    → AllMaps sts
    → lookup a (get_code_tasks sts reg) ≡ first_code (codes_of a sts) (lookup a reg)
unfolding get_code_tasks
lookup-get_code_tasks a [] reg d = refl
lookup-get_code_tasks a (st ∷ rest) reg d =
    lookup-get_code_tasks a rest (get_code_task st reg) d.2
    ∙ rw (lookup-get_code_task a st reg d.0 d.1) (
        offered (lookup a st.input_alloc) (codes_of a rest) _
        ∙ offered (lookup a st.output_alloc) _ (lookup a reg))
