-- ===== src/Replay/Fork/HardFork.antt =====
-- The table of the hard forks, the default of the flag, and the choice of the rules.
use Prim.Native.String.{String}
use substate_cli.Prelude.{
  ℕ, ◌⊎◌, ◌<◌, ◌≤◌, ◌≡◌, ◌↔◌, refl, inl, inr, true, Option, none, some, [], ◌∷◌, arith, ◌==◌,
  nat_eq, nat_eqb_iff, ltb, is_some, if◌then◌else◌, Bool-cases,
}
use substate_cli.GoMap.{GoMap, range, lookup, has}

-- `HardForkName`; a key is an int64 that is not negative.
abbrev pub hard_fork_name : GoMap ℕ String
hard_fork_name =
    (1, "Frontier")
    ∷ (1150000, "Homestead")
    ∷ (2463000, "Tangerine Whistle")
    ∷ (2675000, "Spurious Dragon")
    ∷ (4370000, "Byzantium")
    ∷ (7280000, "Constantinople + Petersburg")
    ∷ (9069000, "Istanbul")
    ∷ (12244000, "Berlin")
    ∷ (12965000, "London")
    ∷ []

-- `for num64 := range HardForkName { if num64 > v { v = num64 } }`
abbrev larger : ℕ → ℕ → String → ℕ
larger v num64 _ = if ltb v num64 then num64 else v

-- `hardForkFlagDefault`, for any table; `none` is its panic.
unfoldable pub hard_fork_flag_default : GoMap ℕ String → Option ℕ
hard_fork_flag_default names = let v = range larger names 0 in if ltb 0 v then some v else none

-- The name in `tests.Forks` of the rules that the `switch` takes; `none` where it has no case.
unfoldable pub fork_rules : ℕ → Option String
fork_rules hard_fork =
    if hard_fork == 1
    then some "Frontier"
    else if hard_fork == 1150000
    then some "Homestead"
    else if hard_fork == 2463000
    then some "EIP150"
    else if hard_fork == 2675000
    then some "EIP158"
    else if hard_fork == 4370000
    then some "Byzantium"
    else if hard_fork == 7280000
    then some "ConstantinopleFix"
    else if hard_fork == 9069000
    then some "Istanbul"
    else if hard_fork == 12244000
    then some "Berlin"
    else if hard_fork == 12965000
    then some "London"
    else none

-- The table and the `switch` have the same numbers: a number that the test of the table lets
-- through always sets the rules.
pub fork_rules_iff : (n : ℕ) → (has n hard_fork_name ≡ true) ↔ (is_some (fork_rules n) ≡ true)
unfolding fork_rules has lookup
fork_rules_iff n = ground (
  arith,
  nat_eqb_iff 1 n,
  nat_eqb_iff n 1,
  nat_eqb_iff 1150000 n,
  nat_eqb_iff n 1150000,
  nat_eqb_iff 2463000 n,
  nat_eqb_iff n 2463000,
  nat_eqb_iff 2675000 n,
  nat_eqb_iff n 2675000,
  nat_eqb_iff 4370000 n,
  nat_eqb_iff n 4370000,
  nat_eqb_iff 7280000 n,
  nat_eqb_iff n 7280000,
  nat_eqb_iff 9069000 n,
  nat_eqb_iff n 9069000,
  nat_eqb_iff 12244000 n,
  nat_eqb_iff n 12244000,
  nat_eqb_iff 12965000 n,
  nat_eqb_iff n 12965000,
)

-- The largest of a number and the keys of a table.
range-larger :
    (names : GoMap ℕ String) (v : ℕ)
    → (v ≤ range larger names v)
      × ((k : ℕ) → has k names ≡ true → k ≤ range larger names v)
      × ((range larger names v ≡ v) ⊎ (has (range larger names v) names ≡ true))
unfolding range has lookup
range-larger [] v = (omega arith, λ k h. ground arith, inl refl)
range-larger ((n, s) ∷ names) v =
    let (up, bound, from) = range-larger names (larger v n s) in
    let w = range larger names (larger v n s) in
    (
      ground (arith, up),
      λ k h. elim (Bool-cases (n == k)) [
        | inl here ↦ ground (arith, up, nat_eqb_iff n k)
        | inr further ↦ bound k (ground arith)
      ],
      elim from [
        | inr later ↦ inr (ground (arith, nat_eqb_iff n w))
        | inl first ↦ elim (Bool-cases (ltb v n)) [
          | inl bigger ↦ inr (ground (arith, nat_eqb_iff n w))
          | inr smaller ↦ inl (ground arith)
        ]
      ],
    )

-- The default is a number exactly if it is the largest key of the table and not 0; without such
-- a key there is a panic.
pub hard_fork_flag_default_iff :
    (names : GoMap ℕ String) (v : ℕ)
    → (hard_fork_flag_default names ≡ some v)
      ↔ ((0 < v) × (has v names ≡ true) × ((k : ℕ) → has k names ≡ true → k ≤ v))
unfolding hard_fork_flag_default
hard_fork_flag_default_iff names v =
    let (up, bound, from) = range-larger names 0 in
    (
      λ e.
          let same : range larger names 0 ≡ v = ground arith in
          let pos : 0 < v = ground arith in
          (
            pos,
            elim from [ inl z ↦ absurd (omega (arith, z, same)) | inr h ↦ rw same at h ],
            λ k h. rw same at (bound k h),
          ),
      λ h.
          let le : v ≤ range larger names 0 = bound v h.1 in
          let ge : range larger names 0 ≤ v = elim from [
            | inl z ↦ omega (arith, z)
            | inr f ↦ h.2 (range larger names 0) f
          ] in
          let same : range larger names 0 ≡ v = omega arith in rw same (ground (arith, h.0)),
    )
