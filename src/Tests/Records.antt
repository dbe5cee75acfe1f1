-- ===== src/Tests/Records.antt =====
-- Two records and a statistic, on which the commands are tried.
use substate_cli.Prelude.{refl, none, some, [], ◌∷◌, nat_eq}
use substate_cli.Prelude.Int.{pos}
use substate_cli.GoMap.{GoMap, Distinct, lookup}
use substate_cli.Types.{Hash, Account}
use substate_cli.Substate.{Substate}

abbrev pub before : GoMap Hash Hash
before = (1, 9) ∷ (2, 0) ∷ (4, 5) ∷ []

abbrev pub changed : GoMap Hash Hash
changed = (1, 0) ∷ (2, 7) ∷ (3, 8) ∷ (5, 6) ∷ []

pub before-Distinct : Distinct before
unfolding lookup
before-Distinct = (refl, (refl, (refl, tt)))

pub changed-Distinct : Distinct changed
unfolding lookup
changed-Distinct = (refl, (refl, (refl, (refl, tt))))

abbrev pub old_account : Account
old_account = record { nonce = 1; balance = pos 9; storage = before; code = 96 ∷ [] }

abbrev pub new_account : Account
new_account = record { nonce = 2; balance = pos 4; storage = changed; code = 96 ∷ [] }

-- Account 7 changes, account 8 is removed and account 9 is new.
abbrev pub tx : Substate
tx = record {
  input_alloc = (7, old_account) ∷ (8, old_account) ∷ [];
  output_alloc = (9, new_account) ∷ (7, new_account) ∷ [];
  env = record {
    coinbase = 1;
    difficulty = 2;
    gas_limit = 100;
    number = 5;
    timestamp = 33;
    block_hashes = none;
    base_fee = none;
  };
  message = record { nonce = 1; sender = 7; to = some 8 };
  result = record { status = 1; bloom = 0; logs = []; contract_address = 0; gas_used = 21 };
}

pub output-Distinct : Distinct tx.output_alloc
unfolding lookup
output-Distinct = (refl, (refl, tt))

pub input-Distinct : Distinct tx.input_alloc
unfolding lookup
input-Distinct = (refl, (refl, tt))
