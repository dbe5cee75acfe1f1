-- ===== src/Replay/Accounts.antt =====
-- The two loops that storage.go and codesize.go share: a line for each account of the output, then
-- one for each account that only the input has.
use substate_cli.Prelude.{
  ◌≡◌, refl, inl, inr, ◌∙◌, none, some, List, [], ◌∷◌, ◌++◌, arith, ◌==◌, nat_eq, nat_eqb_iff,
  Bool-cases, if◌then◌else◌,
}
use substate_cli.GoMap.{lookup, has, Distinct}
use substate_cli.Types.{Address, Account, Alloc}

module _ {L : Type 0} (output_line input_line : Address → Account → L) where
  unfoldable pub print_outputs : Alloc → List L
  print_outputs [] = []
  print_outputs ((addr, account) ∷ rest) = output_line addr account ∷ print_outputs rest

  -- `if _, found := st.OutputAlloc[account]; !found { ... }`
  unfoldable pub print_inputs : Alloc → Alloc → List L
  print_inputs output_alloc [] = []
  print_inputs output_alloc ((addr, account) ∷ rest) =
      let others = print_inputs output_alloc rest in
      if has addr output_alloc then others else input_line addr account ∷ others

  unfoldable pub print_accounts : Alloc → Alloc → List L
  unfolding print_outputs print_inputs
  print_accounts output_alloc input_alloc =
      print_outputs output_alloc ++ print_inputs output_alloc input_alloc

-- The lines of one account, by the address that a line names.
unfoldable pub lines_of : {L : Type 0} → (L → Address) → Address → List L → List L
lines_of name a [] = []
lines_of name a (l ∷ ls) = let rest = lines_of name a ls in if name l == a then l ∷ rest else rest

pub lines_of-append :
    {L : Type 0} (name : L → Address) (a : Address) (ls ms : List L)
    → lines_of name a (ls ++ ms) ≡ lines_of name a ls ++ lines_of name a ms
unfolding lines_of
lines_of-append name a [] ms = refl
lines_of-append name a (l ∷ ls) ms = elim (Bool-cases (name l == a)) [
  | inl y ↦ rw (y, lines_of-append name a ls ms)
  | inr n ↦ rw (n, lines_of-append name a ls ms)
]

module _ {L : Type 0} (output_line input_line : Address → Account → L) (name : L → Address)
    (names_output : (a : Address) (acc : Account) → name (output_line a acc) ≡ a)
    (names_input : (a : Address) (acc : Account) → name (input_line a acc) ≡ a) where
  lines_of-outputs :
      (a : Address) (m : Alloc)
      → Distinct m
      → lines_of name a (print_outputs output_line input_line m)
        ≡ elim (lookup a m) [ none ↦ [] | some acc ↦ output_line a acc ∷ [] ]
  unfolding lines_of print_outputs lookup
  lines_of-outputs a [] d = refl
  lines_of-outputs a ((k, acc) ∷ m) d =
      ground (arith, names_output k acc, lines_of-outputs a m d.1, d.0, nat_eqb_iff k a)

  lines_of-inputs :
      (a : Address) (out m : Alloc)
      → Distinct m
      → lines_of name a (print_inputs output_line input_line out m) ≡ (
          if has a out
          then []
          else elim (lookup a m) [ none ↦ [] | some acc ↦ input_line a acc ∷ [] ])
  unfolding lines_of print_inputs lookup
  lines_of-inputs a out [] d = ground arith
  lines_of-inputs a out ((k, acc) ∷ m) d =
      ground (arith, names_input k acc, lines_of-inputs a out m d.1, d.0, nat_eqb_iff k a)

  -- One line for an account of the output; one for an account that only the input has; no other.
  pub lines_of-print_accounts :
      (a : Address) (out in_alloc : Alloc)
      → Distinct out
      → Distinct in_alloc
      → lines_of name a (print_accounts output_line input_line out in_alloc) ≡ elim (lookup a out) [
        | some acc ↦ output_line a acc ∷ []
        | none ↦ elim (lookup a in_alloc) [ none ↦ [] | some acc ↦ input_line a acc ∷ [] ]
      ]
  unfolding print_accounts has
  lines_of-print_accounts a out in_alloc d e =
      lines_of-append name a (print_outputs output_line input_line out)
        (print_inputs output_line input_line out in_alloc)
      ∙ rw (lines_of-outputs a out d, lines_of-inputs a out in_alloc e) (ground arith)
