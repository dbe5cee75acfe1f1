-- ===== src/OffTheChain/Callers.antt =====
-- `getHash` called by many tasks at once. The lock is taken for the lookup and, after a miss, again
-- for the store, and the hash is computed between the two.
use substate_cli.Prelude.{
  ℕ, ◌≡◌, refl, sym, ◌∙◌, ap, inl, inr, none, some, [], ◌==◌, nat_eq, if◌then◌else◌, Bool-cases,
  length,
}
use substate_cli.GoMap.{lookup, put}
use substate_cli.Types.{Address, Hash, Code}
use substate_cli.OffTheChain.{code_key_eq, CodeHashes, key_of, IsSound, put-IsSound}

-- Where a task stands in `getHash(addr, code)`.
pub data Caller : Type 0 where
  outside : Caller
  missed : Address → Code → Caller
  returned : Address → Code → Hash → Caller

pub record Callers : Type 0 where
  pub code_hashes : CodeHashes
  pub caller : ℕ → Caller

abbrev pub set_caller : ℕ → Caller → (ℕ → Caller) → ℕ → Caller
set_caller i c f j = if i == j then c else f j

module _ (keccak : Code → Hash) (Asked : Address → Code → Type 0) where
  -- Task `i` takes the lock for the lookup, or for the store, or goes on.
  pub data CallStep (s : Callers) : Callers → Type 0 where
    hit :
        (i : ℕ) (addr : Address) (code : Code) (res : Hash)
        → Asked addr code
        → s.caller i ≡ outside
        → lookup (key_of addr code) s.code_hashes ≡ some res
        → CallStep s (record s { caller = set_caller i (returned addr code res) s.caller })
    miss :
        (i : ℕ) (addr : Address) (code : Code)
        → Asked addr code
        → s.caller i ≡ outside
        → lookup (key_of addr code) s.code_hashes ≡ none
        → CallStep s (record s { caller = set_caller i (missed addr code) s.caller })
    store :
        (i : ℕ) (addr : Address) (code : Code)
        → s.caller i ≡ missed addr code
        → CallStep s (record {
          code_hashes = put (key_of addr code) (keccak code) s.code_hashes;
          caller = set_caller i (returned addr code (keccak code)) s.caller;
        })
    leave :
        (i : ℕ) (addr : Address) (code : Code) (res : Hash)
        → s.caller i ≡ returned addr code res
        → CallStep s (record s { caller = set_caller i outside s.caller })

  abbrev pub nobody : Callers
  nobody = record { code_hashes = []; caller = λ i. outside }

  pub data CallReach : Callers → Type 0 where
    start : CallReach nobody
    then_step : {s t : Callers} → CallReach s → CallStep s t → CallReach t

  module _ (the_code : Address → ℕ → Code)
      (one : (addr : Address) (code : Code)
        → Asked addr code
        → code ≡ the_code addr (length code)) where
    -- What is known where a task stands.
    abbrev IsRight : Caller → Type 0
    IsRight outside = Unit
    IsRight (missed addr code) = code ≡ the_code addr (length code)
    IsRight (returned addr code res) = res ≡ keccak code

    record CallInv (s : Callers) : Type 0 where
      sound : IsSound keccak the_code s.code_hashes
      right : (i : ℕ) → IsRight (s.caller i)

    moved :
        (s : Callers) (i : ℕ) (c : Caller)
        → IsRight c
        → ((j : ℕ) → IsRight (s.caller j))
        → (j : ℕ) → IsRight (set_caller i c s.caller j)
    moved s i c h right j = elim (Bool-cases (i == j)) [ inl y ↦ rw y h | inr n ↦ rw n (right j) ]

    CallStep-Inv : {s t : Callers} → CallStep s t → CallInv s → CallInv t
    CallStep-Inv {s} (hit i addr code res asked e found) v = record {
      sound = v.sound;
      right =
          moved s i (returned addr code res)
            (v.sound (key_of addr code) res found ∙ sym (ap keccak (one addr code asked))) v.right;
    }
    CallStep-Inv {s} (miss i addr code asked e missing) v = record {
      sound = v.sound;
      right = moved s i (missed addr code) (one addr code asked) v.right;
    }
    CallStep-Inv {s} (store i addr code e) v = record {
      sound = put-IsSound keccak the_code addr code s.code_hashes (rw e at (v.right i)) v.sound;
      right = moved s i (returned addr code (keccak code)) refl v.right;
    }
    CallStep-Inv {s} (leave i addr code res e) v = record {
      sound = v.sound;
      right = moved s i outside tt v.right;
    }

    CallReach-Inv : {s : Callers} → CallReach s → CallInv s
    unfolding lookup
    CallReach-Inv start = record { sound = λ k h e. cc; right = λ i. tt }
    CallReach-Inv (then_step r st) = CallStep-Inv st (CallReach-Inv r)

    -- Let no address show two codes of one length among the requests. However the calls of the tasks
    -- interleave, every hash that a call returns is that of the code that it was asked for.
    pub CallReach-keccak :
        {s : Callers} (i : ℕ) (addr : Address) (code : Code) (res : Hash)
        → CallReach s
        → s.caller i ≡ returned addr code res
        → res ≡ keccak code
    CallReach-keccak i addr code res r e = rw e at ((CallReach-Inv r).right i)
