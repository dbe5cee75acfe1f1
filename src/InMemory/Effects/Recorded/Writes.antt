-- ===== src/InMemory/Effects/Recorded/Writes.antt =====
-- Each kind of write to a snapshot keeps it recorded.
use substate_cli.Prelude.{◌≡◌, none, List, arith, nat_eq, nat_eqb_iff, ℕ}
use substate_cli.Prelude.Int.{ℤ, pos}
use substate_cli.GoMap.{GoMap, lookup, has, put}
use substate_cli.GoMap.Laws.{lookup-put}
use substate_cli.Types.{Address, Hash, Code, zero_hash, Log, Slot, slot_eq, Alloc}
use substate_cli.InMemory.Frame.{Snapshot}
use substate_cli.InMemory.Effects.Recorded.{IsRecorded}

module _ {alloc : Alloc} (s : Snapshot) (r : IsRecorded alloc s) (addr : Address) where
  pub balance-IsRecorded :
      (value : ℤ)
      → IsRecorded alloc
          (record s { touched = put addr 0 s.touched; balances = put addr value s.balances })
  unfolding has
  balance-IsRecorded value = record {
    balances = λ a t u.
        ground
          (arith, lookup-put a addr 0 s.touched, lookup-put a addr value s.balances, r.balances a);
    nonces = λ a t. ground (arith, lookup-put a addr 0 s.touched, r.nonces a);
    codes = λ a t. ground (arith, lookup-put a addr 0 s.touched, r.codes a);
    storage = λ a k t p. ground (arith, lookup-put a addr 0 s.touched, r.storage a k);
  }

  pub nonce-IsRecorded :
      (value : ℕ)
      → IsRecorded alloc
          (record s { touched = put addr 0 s.touched; nonces = put addr value s.nonces })
  unfolding has
  nonce-IsRecorded value = record {
    balances = λ a t u. ground (arith, lookup-put a addr 0 s.touched, r.balances a);
    nonces = λ a t.
        ground (arith, lookup-put a addr 0 s.touched, lookup-put a addr value s.nonces, r.nonces a);
    codes = λ a t. ground (arith, lookup-put a addr 0 s.touched, r.codes a);
    storage = λ a k t p. ground (arith, lookup-put a addr 0 s.touched, r.storage a k);
  }

  pub code-IsRecorded :
      (value : Code)
      → IsRecorded alloc
          (record s { touched = put addr 0 s.touched; codes = put addr value s.codes })
  unfolding has
  code-IsRecorded value = record {
    balances = λ a t u. ground (arith, lookup-put a addr 0 s.touched, r.balances a);
    nonces = λ a t. ground (arith, lookup-put a addr 0 s.touched, r.nonces a);
    codes = λ a t.
        ground (arith, lookup-put a addr 0 s.touched, lookup-put a addr value s.codes, r.codes a);
    storage = λ a k t p. ground (arith, lookup-put a addr 0 s.touched, r.storage a k);
  }

  pub storage-IsRecorded :
      (key value : Hash)
      → IsRecorded alloc (record s {
        touched = put addr 0 s.touched;
        storage = put (record { addr = addr; key = key }) value s.storage;
      })
  unfolding has
  storage-IsRecorded key value = record {
    balances = λ a t u. ground (arith, lookup-put a addr 0 s.touched, r.balances a);
    nonces = λ a t. ground (arith, lookup-put a addr 0 s.touched, r.nonces a);
    codes = λ a t. ground (arith, lookup-put a addr 0 s.touched, r.codes a);
    storage = λ a k t p. ground (
      arith,
      lookup-put a addr 0 s.touched,
      lookup-put (record { addr = a; key = k }) (record { addr = addr; key = key }) value s.storage,
      r.storage a k,
    );
  }

  pub zero-IsRecorded :
      (key : Hash)
      → lookup addr alloc ≡ none
      → IsRecorded alloc
          (record s { storage = put (record { addr = addr; key = key }) zero_hash s.storage })
  unfolding has
  zero-IsRecorded key absent = record {
    balances = r.balances;
    nonces = r.nonces;
    codes = r.codes;
    storage = λ a k t p. ground (
      arith,
      lookup-put (record { addr = a; key = k }) (record { addr = addr; key = key }) zero_hash
          s.storage,
      nat_eqb_iff addr a,
      r.storage a k,
    );
  }

  pub suicide-IsRecorded :
      IsRecorded alloc
        (record s { suicided = put addr 0 s.suicided; balances = put addr (pos 0) s.balances })
  unfolding has
  suicide-IsRecorded = record {
    balances = λ a t u.
        ground (
          arith,
          lookup-put a addr 0 s.suicided,
          lookup-put a addr (pos 0) s.balances,
          r.balances a,
        );
    nonces = r.nonces;
    codes = r.codes;
    storage = r.storage;
  }

  -- A write to none of these maps.
  pub lists-IsRecorded :
      (accounts : GoMap Address ℕ) (slots : GoMap Slot ℕ) (logs : List Log) (refund : ℕ)
      → IsRecorded alloc (record s {
        accessed_accounts = accounts;
        accessed_slots = slots;
        logs = logs;
        refund = refund;
      })
  lists-IsRecorded accounts slots logs refund = record {
    balances = r.balances;
    nonces = r.nonces;
    codes = r.codes;
    storage = r.storage;
  }
