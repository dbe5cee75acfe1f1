-- ===== src/Replay/CodeSize.antt =====
-- cmd/substate-cli/replay/codesize.go: the type of a transaction, and the code sizes and nonces of
-- its accounts.
use substate_cli.Prelude.{
  ℕ, ◌≡◌, ◌∙◌, ap, refl, Bool, true, false, Option, none, some, List, [], ◌∷◌, arith, ◌==◌, nat_eq,
  length, ltb, if◌then◌else◌,
}
use substate_cli.GoMap.{lookup, Distinct}
use substate_cli.Types.{Address, Account, Alloc}
use substate_cli.Substate.{Substate}
use substate_cli.Replay.Accounts.{print_accounts, lines_of, lines_of-print_accounts}

-- The strings that `GetTxType` returns.
pub data TxType : Type 0 where
  create transfer call unknown : TxType

-- `GetTxType`; the code of a missing receiver is not looked at.
unfoldable pub get_tx_type : Option Address → Alloc → TxType
get_tx_type none alloc = create
get_tx_type (some to) alloc = elim (lookup to alloc) [
  | none ↦ transfer
  | some account ↦
      if length account.code == 0
      then transfer
      else if ltb 0 (length account.code)
      then call
      else unknown
]

-- A line `metric: ...` of `getCodeSizeTask`.
pub record CodeLine : Type 0 where
  pub block : ℕ
  pub timestamp : ℕ
  pub tx : ℕ
  pub account : Address
  pub code_size : ℕ
  pub nonce : ℕ
  pub tx_type : TxType

unfoldable pub code_line : ℕ → ℕ → Substate → Address → Account → CodeLine
code_line block tx st account info = record {
  block = block;
  timestamp = st.env.timestamp;
  tx = tx;
  account = account;
  code_size = length info.code;
  nonce = info.nonce;
  tx_type = get_tx_type st.message.to st.input_alloc;
}

-- `getCodeSizeTask`, with its lines in the order of printing.
unfoldable pub get_code_size_task : ℕ → ℕ → Substate → List CodeLine
get_code_size_task block tx st =
    print_accounts (code_line block tx st) (code_line block tx st) st.output_alloc st.input_alloc

-- Whether the input allocation has code at the receiver.
abbrev pub has_code : Option Account → Bool
has_code none = false
has_code (some account) = elim account.code [ [] ↦ false | c ∷ rest ↦ true ]

-- The type is `create` without a receiver, `call` where the receiver has code and `transfer`
-- otherwise; it is never `unknown`.
pub get_tx_type_lem :
    (to : Option Address) (alloc : Alloc)
    → get_tx_type to alloc ≡ elim to [
      | none ↦ create
      | some addr ↦ if has_code (lookup addr alloc) then call else transfer
    ]
unfolding get_tx_type
get_tx_type_lem none alloc = refl
get_tx_type_lem (some to) alloc = ground arith

-- `create` without a receiver, `call` where the receiver has code, and `transfer` otherwise.
abbrev pub type_of : Option Address → Alloc → TxType
type_of none alloc = create
type_of (some addr) alloc = if has_code (lookup addr alloc) then call else transfer

-- The one line of an account that is there, and none of one that is not.
abbrev pub lines_at : ℕ → ℕ → Substate → Address → Option Account → List CodeLine
lines_at block tx st a none = []
lines_at block tx st a (some info) =
    record {
      block = block;
      timestamp = st.env.timestamp;
      tx = tx;
      account = a;
      code_size = length info.code;
      nonce = info.nonce;
      tx_type = type_of st.message.to st.input_alloc;
    }
    ∷ []

-- The account after the transaction where it is there then, and before it otherwise.
abbrev pub latest : Option Account → Option Account → Option Account
latest (some info) before = some info
latest none before = before

code_line-lines_at :
    (block tx : ℕ) (st : Substate) (a : Address) (info : Account)
    → code_line block tx st a info ∷ [] ≡ lines_at block tx st a (some info)
unfolding code_line
code_line-lines_at block tx st a info =
    ap (λ t. record (code_line block tx st a info) { tx_type = t } ∷ [])
      (type st.message.to st.input_alloc)
  where
    type : (to : Option Address) (alloc : Alloc) → get_tx_type to alloc ≡ type_of to alloc
    type none alloc = get_tx_type_lem none alloc
    type (some to) alloc = get_tx_type_lem (some to) alloc

-- If neither allocation has a key twice, the task prints exactly one line for each account of either
-- allocation and none for another. The line has the code size and the nonce of the account in the
-- output where it is there, and of that in the input otherwise; its type is `create` without a
-- receiver, `call` where the input has code at the receiver, and `transfer` otherwise.
pub get_code_size_task-lines :
    (block tx : ℕ) (st : Substate) (a : Address)
    → Distinct st.output_alloc
    → Distinct st.input_alloc
    → lines_of (λ (l : CodeLine). l.account) a (get_code_size_task block tx st)
      ≡ lines_at block tx st a (latest (lookup a st.output_alloc) (lookup a st.input_alloc))
unfolding get_code_size_task code_line
get_code_size_task-lines block tx st a d e =
    lines_of-print_accounts (code_line block tx st) (code_line block tx st)
      (λ (l : CodeLine). l.account) (λ a acc. refl) (λ a acc. refl) a st.output_alloc st.input_alloc
      d e
    ∙ chosen (lookup a st.output_alloc) (lookup a st.input_alloc)
  where
    chosen :
        (o p : Option Account)
        → elim o [
          | some info ↦ code_line block tx st a info ∷ []
          | none ↦ elim p [ none ↦ [] | some info ↦ code_line block tx st a info ∷ [] ]
        ]
          ≡ lines_at block tx st a (latest o p)
    chosen (some info) p = code_line-lines_at block tx st a info
    chosen none (some info) = code_line-lines_at block tx st a info
    chosen none none = refl
