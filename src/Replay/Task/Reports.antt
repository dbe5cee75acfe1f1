-- ===== src/Replay/Task/Reports.antt =====
-- replay.go: what a task reports on block hashes and on outputs that differ.
use substate_cli.Prelude.{
  ℕ, ◌≡◌, ◌↔◌, refl, ap, inl, inr, Bool, true, false, ◌&&◌, none, some, List, [], ◌∷◌, ◌++◌, arith,
  nat_eq, is_some, Bool-cases, Option-cases,
}
use substate_cli.GoMap.{lookup, Distinct}
use substate_cli.Types.{Address, Alloc}
use substate_cli.Substate.{Env, Result, Substate}
use substate_cli.Types.Maps.{HasMaps}
use substate_cli.Replay.Diff.{Line, print_allocation_diff_summary}
use substate_cli.Replay.Diff.Results.{print_result_diff_summary-Reports}
use substate_cli.Replay.Diff.Allocations.{AgreeAt, print_allocation_diff_summary-nil_iff}
use substate_cli.Replay.Task.{
  HashError, note_hash, note_hashes, Printed, about, inconsistent_result, inconsistent_alloc,
  difference, differences, inconsistent_output, Outcome, compare_with_record,
}

-- The block hashes of a record have all the numbers.
abbrev pub is_provided : Env → ℕ → Bool
is_provided env num = elim env.block_hashes [
  | none ↦ false
  | some hashes ↦ is_some (lookup num hashes)
]

abbrev pub all_provided : Env → List ℕ → Bool
all_provided env [] = true
all_provided env (num ∷ nums) = is_provided env num && all_provided env nums

keeps_error :
    (env : Env) (e : HashError) (nums : List ℕ) → is_some (note_hashes env (some e) nums) ≡ true
unfolding note_hashes note_hash
keeps_error env e [] = refl
keeps_error env e (num ∷ nums) = elim (Option-cases (note_hash env (some e) num)) [
  | inl cleared ↦ absurd (ground (arith, cleared))
  | inr (f, noted) ↦ rw (noted, note_hashes) (keeps_error env f nums)
]

-- After any calls of `getHash` no error is left exactly if the record provides each block hash that
-- was asked for: a later call does not clear the error of an earlier one.
pub note_hashes-none_iff :
    (env : Env) (nums : List ℕ)
    → (note_hashes env none nums ≡ none) ↔ (all_provided env nums ≡ true)
unfolding note_hashes note_hash
note_hashes-none_iff env [] = (λ _. refl, λ _. refl)
note_hashes-none_iff env (num ∷ nums) = elim (Option-cases (note_hash env none num)) [
  | inl fine ↦
      let rest = note_hashes-none_iff env nums in
      let here : is_provided env num ≡ true = ground (arith, fine) in
      rw (fine, here, note_hashes) rest
  | inr (e, noted) ↦
      let kept = keeps_error env e nums in
      let here : is_provided env num ≡ false = ground (arith, noted) in
      rw (noted, here, note_hashes) (λ h. absurd (cc (rw h at kept)), λ h. absurd cc)
]

-- Whether a difference is printed.
abbrev pub shows_difference : List Printed → Bool
shows_difference [] = false
shows_difference (difference l ∷ lines) = true
shows_difference (about block tx ∷ lines) = shows_difference lines
shows_difference (inconsistent_result ∷ lines) = shows_difference lines
shows_difference (inconsistent_alloc ∷ lines) = shows_difference lines

shows-some_difference : (ls : List Line) → ¬ (ls ≡ []) → shows_difference (differences ls) ≡ true
shows-some_difference [] h = absurd (h refl)
shows-some_difference (l ∷ ls) h = refl

shows-append :
    (ls : List Line) (ms : List Printed)
    → ¬ (ls ≡ [])
    → shows_difference (differences ls ++ ms) ≡ true
shows-append [] ms h = absurd (h refl)
shows-append (l ∷ ls) ms h = refl

-- Let equal results and allocations that agree at every address be found equal, and neither
-- allocation have a key twice nor an account a slot twice. If the comparison reports inconsistent
-- output, it has printed a line with a difference.
pub compare_with_record-shows :
    (result_equal : Result → Result → Bool) (alloc_equal : Alloc → Alloc → Bool)
    (result_refl : (r : Result) → result_equal r r ≡ true)
    (alloc_agree : (m n : Alloc)
      → ((a : Address) → AgreeAt (lookup a m) (lookup a n))
      → alloc_equal m n ≡ true)
    (block tx : ℕ) (recording : Substate) (result : Result) (alloc : Alloc) {o : Outcome}
    → Distinct recording.output_alloc
    → Distinct alloc
    → HasMaps recording.output_alloc
    → HasMaps alloc
    → compare_with_record result_equal alloc_equal block tx recording result alloc ≡ some o
    → o.error ≡ some inconsistent_output
    → shows_difference o.lines ≡ true
unfolding compare_with_record
compare_with_record-shows result_equal alloc_equal result_refl alloc_agree block tx recording result
      alloc {o} d f p q e h =
    let (ls, printed, same) = print_result_diff_summary-Reports recording.result result in
    let alloc_iff = print_allocation_diff_summary-nil_iff recording.output_alloc alloc d f p q in
    let ms = print_allocation_diff_summary recording.output_alloc alloc in
    elim (Bool-cases (result_equal recording.result result)) [
      | inr other ↦
          let different : ¬ (ls ≡ []) = λ z.
            cc (
              other,
              result_refl recording.result,
              ap (result_equal recording.result) (same.0 z),
            ) in
          ground (
            arith,
            other,
            printed,
            shows-append ls [] different,
            shows-append ls (inconsistent_alloc ∷ differences ms) different,
          )
      | inl equal ↦ elim (Bool-cases (alloc_equal recording.output_alloc alloc)) [
        | inl agree ↦ absurd (ground arith)
        | inr differ ↦
            let different : ¬ (ms ≡ []) =
              λ z. cc (differ, alloc_agree recording.output_alloc alloc (alloc_iff.0 z)) in
            ground (arith, equal, differ, shows-some_difference ms different)
      ]
    ]
