-- ===== src/Replay/Location/Numbering.antt =====
-- An index numbers the values that it is asked for without gaps and without a number twice.
use substate_cli.Prelude.{
  ℕ, suc, ◌<◌, ◌≡◌, refl, inl, inr, none, some, [], ◌∷◌, arith, Eq, length, Option-cases,
}
use substate_cli.GoMap.{lookup, put}
use substate_cli.GoMap.Laws.{lookup-put, lookup-put_self}
use substate_cli.Replay.Location.{Index, get}

module _ {T : Type 0} ⦃e : Eq T⦄ where
  -- Numbers stay below the size, and no two values have the same.
  pub record IsNumbering (i : Index T) : Type 0 where
    pub bounded : (x : T) (n : ℕ) → lookup x i ≡ some n → n < length i
    pub injective : (x y : T) (n : ℕ) → lookup x i ≡ some n → lookup y i ≡ some n → x ≡ y

  pub empty-IsNumbering : IsNumbering []
  unfolding lookup
  empty-IsNumbering = record { bounded = λ x n h. cc; injective = λ x y n h k. cc }

  length-put_new :
      (x : T) (n : ℕ) (i : Index T) → lookup x i ≡ none → length (put x n i) ≡ suc (length i)
  unfolding lookup put
  length-put_new x n [] h = refl
  length-put_new x n ((y, m) ∷ i) h = ground (arith, length-put_new x n i)

  -- Asking for a value keeps the numbering, answers with a number that the index then has for the
  -- value, and changes the number of no value that has one.
  pub record Answers (x : T) (i : Index T) (r : Index T × ℕ) : Type 0 where
    pub numbering : IsNumbering r.0
    pub answer : lookup x r.0 ≡ some r.1
    pub kept : (y : T) (n : ℕ) → lookup y i ≡ some n → lookup y r.0 ≡ some n

  new-Answers :
      (x : T) (i : Index T)
      → IsNumbering i
      → lookup x i ≡ none
      → Answers x i (put x (length i) i, length i)
  new-Answers x i v absent = record {
    numbering = record {
      bounded = λ y n h.
          ground (
            arith,
            lookup-put y x (length i) i,
            v.bounded y n,
            length-put_new x (length i) i absent,
          );
      injective = λ y z n h k. ground (
        arith,
        lookup-put y x (length i) i,
        lookup-put z x (length i) i,
        v.bounded y n,
        v.bounded z n,
        v.injective y z n,
        e.equal_iff x y,
        e.equal_iff x z,
      );
    };
    answer = lookup-put_self x (length i) i;
    kept = λ y n h. ground (arith, lookup-put y x (length i) i, e.equal_iff x y);
  }

  -- If an index numbers its values below its size and no two alike, then `Get` of any value keeps
  -- it so, answers with the number that the index then has for the value, and changes the number
  -- of no value that has one.
  pub get-Answers : (x : T) (i : Index T) → IsNumbering i → Answers x i (get x i)
  unfolding get
  get-Answers x i v = elim (Option-cases (lookup x i)) [
    | inl absent ↦ rw (absent, get) (new-Answers x i v absent)
    | inr (n, present) ↦
        rw (present, get) (record { numbering = v; answer = present; kept = λ y m h. h })
  ]
