-- ===== src/Replay/Duration.antt =====
-- cmd/substate-cli/replay/replay.go: the time spent in the machine, an int64 that all tasks add to.
-- Each access is atomic, so that the additions happen one after the other, in some order.
use substate_cli.Prelude.{ℕ, ◌+◌, ◌%◌, ◌^◌, ◌<◌, ◌≡◌, ◌∙◌, List, [], ◌∷◌, arith}
use substate_cli.Prelude.Int.{ℤ, pos}
use substate_cli.Replay.Statistic.{total}
use substate_cli.Replay.Storage.{word, signed}

-- `resetVmDuration`, on the 64 bits of the counter
unfoldable pub reset_vm_duration : ℕ → ℕ
reset_vm_duration vm_duration = 0

-- `addVmDuration`
unfoldable pub add_vm_duration : ℕ → ℕ → ℕ
add_vm_duration delta vm_duration = (vm_duration + delta) % word

-- `getVmDuration`
unfoldable pub get_vm_duration : ℕ → ℤ
get_vm_duration vm_duration = signed vm_duration

abbrev pub add_all : List ℕ → ℕ → ℕ
add_all [] vm_duration = vm_duration
add_all (delta ∷ deltas) vm_duration = add_all deltas (add_vm_duration delta vm_duration)

add_all-total :
    (deltas : List ℕ) (vm_duration : ℕ)
    → vm_duration + total deltas < 2 ^ 63
    → add_all deltas vm_duration ≡ vm_duration + total deltas
unfolding add_vm_duration total
add_all-total [] vm_duration h = omega arith
add_all-total (delta ∷ deltas) vm_duration h =
    let fits : (vm_duration + delta) % word ≡ vm_duration + delta = omega (arith, h) in
    rw fits (add_all-total deltas (vm_duration + delta) (omega (arith, h)) ∙ omega arith)

-- While the times of the tasks sum to less than 2 ^ 63, the time that is printed is their sum, in
-- whatever order the tasks add them.
pub get_vm_duration-total :
    (deltas : List ℕ) (before : ℕ)
    → total deltas < 2 ^ 63
    → get_vm_duration (add_all deltas (reset_vm_duration before)) ≡ pos (total deltas)
unfolding get_vm_duration reset_vm_duration
get_vm_duration-total deltas before h =
    rw (add_all-total deltas 0 (omega (arith, h))) (ground (arith, h))
