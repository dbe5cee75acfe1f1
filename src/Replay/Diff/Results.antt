-- ===== src/Replay/Diff/Results.antt =====
-- replay.go: the lines of `PrintResultDiffSummary`.
use substate_cli.Prelude.{
  ℕ, suc, ◌≡◌, ◌↔◌, refl, ap, inl, inr, Option, some, List, [], ◌∷◌, ◌++◌, arith, ◌==◌, nat_eq,
  nat_eqb_iff, length, if◌then◌else◌, Bool-cases,
}
use substate_cli.Prelude.Int.{ℤ, int_eq}
use substate_cli.Types.{Hash, Code, Log}
use substate_cli.Substate.{Result}
use substate_cli.Replay.Fork.Verdict.{bytes_equal_iff}
use substate_cli.Replay.Diff.{
  Label, Line, print_if_different, print_if_different_bytes, print_if_different_big_int, print_each,
  print_log_diff_summary, print_result_diff_summary, log_topic, log_topics_size, log_address,
  log_data, log_size, status, contract_address, gas_usage, log_bloom_filter,
}

pub append-nil_iff : (xs ys : List Line) → ((xs ++ ys) ≡ []) ↔ ((xs ≡ []) × (ys ≡ []))
append-nil_iff [] ys = (λ h. (refl, h), λ h. h.1)
append-nil_iff (x ∷ xs) ys = (λ h. absurd cc, λ h. absurd (cc h.0))

pub print_if_different-nil_iff :
    (label : Label) (want have : ℕ) → ((print_if_different label want have).0 ≡ []) ↔ (want ≡ have)
unfolding print_if_different
print_if_different-nil_iff label want have = ground (arith, nat_eqb_iff want have)

pub print_if_different_bytes-nil_iff :
    (label : Label) (want have : Code)
    → ((print_if_different_bytes label want have).0 ≡ []) ↔ (want ≡ have)
unfolding print_if_different_bytes
print_if_different_bytes-nil_iff label want have = ground (arith, bytes_equal_iff want have)

pub print_if_different_big_int-nil_iff :
    (label : Label) (want have : ℤ)
    → ((print_if_different_big_int label want have).0 ≡ []) ↔ (want ≡ have)
unfolding print_if_different_big_int
print_if_different_big_int-nil_iff label want have = ground (arith, int_eq.equal_iff want have)

-- Lines are printed, and none exactly if the two are equal.
abbrev pub Reports {ℓ} : {A : Type ℓ} → Option (List Line) → A → A → Type ℓ
Reports printed want have =
    (lines : List Line) × (printed ≡ some lines) × ((lines ≡ []) ↔ (want ≡ have))

print_each-Reports :
    {A : Type 0} (print : ℕ → A → A → Option (List Line))
    → ((i : ℕ) (w h : A) → Reports (print i w h) w h)
    → (i : ℕ) (want have : List A) → length want ≡ length have
    → Reports (print_each print i want have) want have
unfolding print_each
print_each-Reports print r i [] [] e = ([], refl, (λ _. refl, λ _. refl))
print_each-Reports print r i [] (h ∷ have) e = absurd (omega (arith, e))
print_each-Reports print r i (w ∷ want) [] e = absurd (omega (arith, e))
print_each-Reports print r i (w ∷ want) (h ∷ have) e =
    let (first, made, same) = r i w h in
    let (rest, others, rest_same) =
      print_each-Reports print r (suc i) want have (omega (arith, e)) in
    (
      first ++ rest,
      rw (made, print_each) (rw (others, print_each)),
      (
        λ z.
            let both = (append-nil_iff first rest).0 z in
            λ j. same.0 both.0 j ∷ rest_same.0 both.1 j,
        λ q. (append-nil_iff first rest).1 (same.1 cc, rest_same.1 cc),
      ),
    )

-- A list printed with its size first, and entry by entry where the sizes are equal.
listed :
    {A : Type 0} (label : Label) (print : ℕ → A → A → Option (List Line))
    → ((i : ℕ) (w h : A) → Reports (print i w h) w h)
    → (want have : List A)
    → (lines : List Line) × ((if (print_if_different label (length want) (length have)).1
          then some []
          else print_each print 0 want have)
        ≡ some lines)
      × ((((print_if_different label (length want) (length have)).0 ≡ []) × (lines ≡ []))
          ↔ (want ≡ have))
unfolding print_if_different
listed label print r want have = elim (Bool-cases (length want == length have)) [
  | inr differ ↦ rw differ (
    [],
    refl,
    (λ h. absurd cc, λ e. cc (differ, (nat_eqb_iff (length want) (length have)).1 (ap length e))),
  )
  | inl equal ↦
      let (lines, made, same) =
        print_each-Reports print r 0 want have
          ((nat_eqb_iff (length want) (length have)).0 equal) in
      rw equal (lines, made, (λ h. same.0 h.1, λ e. (refl, same.1 e)))
]

print_log_diff_summary-Reports :
    (i : ℕ) (want have : Log) → Reports (print_log_diff_summary i want have) want have
unfolding print_log_diff_summary
print_log_diff_summary-Reports i want have =
    let print = λ (j : ℕ) (w h : Hash). some (print_if_different (log_topic i j) w h).0 in
    let (ts, made, same) =
      listed (log_topics_size i) print
        (λ j w h. (_, refl, print_if_different-nil_iff (log_topic i j) w h)) want.topics
        have.topics in
    let addresses = (print_if_different (log_address i) want.address have.address).0 in
    let sizes =
      (print_if_different (log_topics_size i) (length want.topics) (length have.topics)).0 in
    let texts = (print_if_different_bytes (log_data i) want.bytes have.bytes).0 in
    (
      addresses ++ (sizes ++ (ts ++ texts)),
      rw (made, print_log_diff_summary) refl,
      ground (
        arith,
        append-nil_iff addresses (sizes ++ (ts ++ texts)),
        append-nil_iff sizes (ts ++ texts),
        append-nil_iff ts texts,
        same,
        print_if_different-nil_iff (log_address i) want.address have.address,
        print_if_different_bytes-nil_iff (log_data i) want.bytes have.bytes,
      ),
    )

-- For any two results the summary is printed without a panic, and has no line exactly if the two
-- have the same status, contract address, gas, bloom filter and logs.
pub print_result_diff_summary-Reports :
    (want have : Result) → Reports (print_result_diff_summary want have) want have
unfolding print_result_diff_summary
print_result_diff_summary-Reports want have =
    let (ls, made, same) =
      listed log_size print_log_diff_summary print_log_diff_summary-Reports want.logs have.logs in
    let statuses = (print_if_different status want.status have.status).0 in
    let contracts =
      (print_if_different contract_address want.contract_address have.contract_address).0 in
    let gases = (print_if_different gas_usage want.gas_used have.gas_used).0 in
    let blooms = (print_if_different log_bloom_filter want.bloom have.bloom).0 in
    let sizes = (print_if_different log_size (length want.logs) (length have.logs)).0 in
    (
      statuses ++ (contracts ++ (gases ++ (blooms ++ (sizes ++ ls)))),
      rw (made, print_result_diff_summary) refl,
      ground (
        arith,
        append-nil_iff statuses (contracts ++ (gases ++ (blooms ++ (sizes ++ ls)))),
        append-nil_iff contracts (gases ++ (blooms ++ (sizes ++ ls))),
        append-nil_iff gases (blooms ++ (sizes ++ ls)),
        append-nil_iff blooms (sizes ++ ls),
        append-nil_iff sizes ls,
        same,
        print_if_different-nil_iff status want.status have.status,
        print_if_different-nil_iff contract_address want.contract_address have.contract_address,
        print_if_different-nil_iff gas_usage want.gas_used have.gas_used,
        print_if_different-nil_iff log_bloom_filter want.bloom have.bloom,
      ),
    )
