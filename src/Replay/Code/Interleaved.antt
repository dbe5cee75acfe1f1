-- ===== src/Replay/Code/Interleaved.antt =====
-- The tasks of code.go in parallel: the mutex is held for one `registerContract`, so that the calls
-- of different tasks come in any order that keeps each task's own.
use substate_cli.Prelude.{
  ℕ, ◌+◌, ◌≡◌, refl, sym, ◌∙◌, ap, ◌&&◌, List, [], ◌∷◌, ◌++◌, arith, ◌==◌, nat_eq, if◌then◌else◌,
}
use substate_cli.GoMap.{range, Distinct}
use substate_cli.GoMap.Laws.{put-Distinct}
use substate_cli.Types.{Address, Code, Alloc}
use substate_cli.Substate.{Substate}
use substate_cli.Replay.Fork.{bytes_equal}
use substate_cli.Replay.Code.{CodeRegistry, register_contract, register_account, get_code_task}

-- A call of `registerContract`
abbrev pub Call : Type 0
Call = Address × Code

-- The calls that a loop of `getCodeTask` makes.
unfoldable pub calls_of : Alloc → List Call
calls_of [] = []
calls_of ((account, info) ∷ alloc) = (account, info.code) ∷ calls_of alloc

-- The calls of `getCodeTask`, in its order.
unfoldable pub task_calls : Substate → List Call
unfolding calls_of
task_calls st = calls_of st.output_alloc ++ calls_of st.input_alloc

abbrev pub all_calls : List Substate → List (List Call)
all_calls [] = []
all_calls (st ∷ sts) = task_calls st ∷ all_calls sts

-- One of the tasks makes its next call.
pub data Takes : List (List Call) → Call → List (List Call) → Type 0 where
  takes_first :
      (c : Call) (cs : List Call) (tasks : List (List Call))
      → Takes ((c ∷ cs) ∷ tasks) c (cs ∷ tasks)
  takes_later :
      (cs : List Call) {tasks rest : List (List Call)} {c : Call}
      → Takes tasks c rest
      → Takes (cs ∷ tasks) c (cs ∷ rest)

abbrev pub AllEnded : List (List Call) → Type 0
AllEnded [] = Unit
AllEnded ([] ∷ tasks) = AllEnded tasks
AllEnded ((c ∷ cs) ∷ tasks) = ⊥

-- The calls of all tasks, in an order in which they can come.
pub data Interleaving : List (List Call) → List Call → Type 0 where
  ended : {tasks : List (List Call)} → AllEnded tasks → Interleaving tasks []
  calls :
      {tasks rest : List (List Call)} {c : Call} {order : List Call}
      → Takes tasks c rest
      → Interleaving rest order
      → Interleaving tasks (c ∷ order)

-- `CodeRegistry` after the calls.
unfoldable pub register_all : List Call → CodeRegistry → CodeRegistry
unfolding register_contract
register_all [] registry = registry
register_all ((contract, code) ∷ order) registry =
    register_all order (register_contract contract code registry)

-- The calls of one task are its two loops.
register_all-append :
    (xs ys : List Call) (registry : CodeRegistry)
    → register_all (xs ++ ys) registry ≡ register_all ys (register_all xs registry)
unfolding register_all
register_all-append [] ys registry = refl
register_all-append ((contract, code) ∷ xs) ys registry =
    register_all-append xs ys (register_contract contract code registry)

register_all-calls_of :
    (alloc : Alloc) (registry : CodeRegistry)
    → register_all (calls_of alloc) registry ≡ range register_account alloc registry
unfolding register_all calls_of range
register_all-calls_of [] registry = refl
register_all-calls_of ((a, info) ∷ alloc) registry =
    register_all-calls_of alloc (register_contract a info.code registry)

pub register_all-task_calls :
    (st : Substate) (registry : CodeRegistry)
    → register_all (task_calls st) registry ≡ get_code_task st registry
unfolding task_calls get_code_task
register_all-task_calls st registry =
    register_all-append (calls_of st.output_alloc) (calls_of st.input_alloc) registry
    ∙ register_all-calls_of st.input_alloc (register_all (calls_of st.output_alloc) registry)
    ∙ ap (range register_account st.input_alloc) (register_all-calls_of st.output_alloc registry)

pub register_all-Distinct :
    (order : List Call) (registry : CodeRegistry)
    → Distinct registry
    → Distinct (register_all order registry)
unfolding register_all
register_all-Distinct [] registry d = d
register_all-Distinct ((a, code) ∷ order) registry d =
    register_all-Distinct order (register_contract a code registry)
      (unfold register_contract in ground (arith, put-Distinct a code registry d))

-- How many of the calls register the code for the address.
abbrev pub registering : Address → Code → List Call → ℕ
registering a code [] = 0
registering a code ((b, c) ∷ order) =
    (if b == a && bytes_equal c code then 1 else 0) + registering a code order

abbrev pub in_all : Address → Code → List (List Call) → ℕ
in_all a code [] = 0
in_all a code (cs ∷ tasks) = registering a code cs + in_all a code tasks

AllEnded-none :
    (a : Address) (code : Code) (tasks : List (List Call))
    → AllEnded tasks
    → in_all a code tasks ≡ 0
AllEnded-none a code [] e = refl
AllEnded-none a code ([] ∷ tasks) e = omega (arith, AllEnded-none a code tasks e)
AllEnded-none a code ((c ∷ cs) ∷ tasks) e = elim e [ ]

in_all-Takes :
    (a : Address) (code : Code) {tasks rest : List (List Call)} {c : Call}
    → Takes tasks c rest
    → in_all a code tasks ≡ registering a code (c ∷ []) + in_all a code rest
in_all-Takes a code (takes_first c cs tasks) = omega arith
in_all-Takes a code (takes_later cs t) = omega (arith, in_all-Takes a code t)

pub registering-Interleaving :
    (a : Address) (code : Code) {tasks : List (List Call)} {order : List Call}
    → Interleaving tasks order
    → registering a code order ≡ in_all a code tasks
registering-Interleaving a code {tasks} (ended e) = sym (AllEnded-none a code tasks e)
registering-Interleaving a code (calls t i) =
    omega (arith, in_all-Takes a code t, registering-Interleaving a code i)
