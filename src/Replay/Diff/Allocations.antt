-- ===== src/Replay/Diff/Allocations.antt =====
-- replay.go: the lines of `PrintAllocationDiffSummary`.
use mathlib.Core.Option.{some-injective}
use mathlib.Core.Path.{subst₂}
use substate_cli.Prelude.{
  ◌≡◌, ◌↔◌, refl, sym, ◌∙◌, ap, inl, inr, true, Option, none, some, List, [], ◌∷◌, ◌++◌, arith, Eq,
  ◌==◌, ==_refl, nat_eq, length, is_some, Bool-cases, Option-cases,
}
use substate_cli.Prelude.Int.{int_eq}
use substate_cli.GoMap.{GoMap, lookup, has, Distinct}
use substate_cli.Types.{Address, Hash, Account, Alloc}
use substate_cli.Replay.Fork.SameMap.{length-le_of_KeysIn, KeysIn-by_matches}
use substate_cli.Types.Maps.{HasMaps, HasMaps-lookup}
use substate_cli.Replay.Diff.{
  Label, Line, print_if_different, print_if_different_bytes, print_if_different_big_int,
  print_absent, print_common, print_account_diff_summary, print_allocation_diff_summary,
  account_nonce, account_balance, account_code, storage_size, storage_slot, misses_slot, extra_slot,
  alloc_size, missing_key, extra_key,
}
use substate_cli.Replay.Diff.Results.{
  append-nil_iff, print_if_different-nil_iff, print_if_different_bytes-nil_iff,
  print_if_different_big_int-nil_iff,
}

module _ {K V : Type 0} ⦃e : Eq K⦄ where
  print_absent-nil_iff :
      (line : K → Line) (m n : GoMap K V)
      → Distinct m
      → (print_absent line m n ≡ []) ↔ ((k : K) → has k m ≡ true → has k n ≡ true)
  unfolding print_absent has lookup
  print_absent-nil_iff line [] n d = (λ h k p. ground arith, λ h. refl)
  print_absent-nil_iff line ((j, v) ∷ m) n d =
      let tail = print_absent-nil_iff line m n d.1 in
      (
        λ h k p. elim (Bool-cases (j == k)) [
          | inl here ↦ ground (arith, e.equal_iff j k)
          | inr further ↦ tail.0 (ground arith) k (ground arith)
        ],
        λ h.
            let first : has j n ≡ true = h j (ground (arith, ==_refl j)) in
            let rest = tail.1 (λ k p. h k (ground (arith, e.equal_iff j k))) in
            ground (arith, first, rest),
      )

  module _ (print : K → V → V → List Line) where
    common_silent :
        (want have : GoMap K V)
        → print_common print want have ≡ []
        → (k : K) (v w : V) → lookup k want ≡ some v
        → lookup k have ≡ some w
        → print k v w ≡ []
    unfolding print_common lookup
    common_silent want [] h k v w p q = cc
    common_silent want ((j, u) ∷ have) h k v w p q = elim (Bool-cases (j == k)) [
      | inl here ↦
          let same : j ≡ k = (e.equal_iff j k).0 here in
          ground (arith, append-nil_iff (print j v u) (print_common print want have), same)
      | inr further ↦ elim (Option-cases (lookup j want)) [
        | inl absent ↦ common_silent want have (ground arith) k v w p (ground arith)
        | inr (x, present) ↦
            common_silent want have
              (ground (arith, append-nil_iff (print j x u) (print_common print want have))) k v w p
              (ground arith)
      ]
    ]

    silent_common :
        (want have : GoMap K V)
        → Distinct have
        → ((k : K) (v w : V) → lookup k want ≡ some v → lookup k have ≡ some w → print k v w ≡ [])
        → print_common print want have ≡ []
    unfolding print_common lookup
    silent_common want [] d h = refl
    silent_common want ((j, u) ∷ have) d h =
        let rest =
          silent_common want have d.1
            (λ k v w p q. h k v w p (ground (arith, e.equal_iff j k, d.0))) in
        elim (Option-cases (lookup j want)) [
          | inl absent ↦ ground arith
          | inr (x, present) ↦
              let first : print j x u ≡ [] = h j x u present (ground (arith, ==_refl j)) in
              ground (arith, append-nil_iff (print j x u) (print_common print want have))
        ]

  -- The sizes, the keys that are missing or extra, and the values at the common keys.
  differences-nil_iff :
      (label : Label) (missing extra : K → Line) (print : K → V → V → List Line) (m n : GoMap K V)
      → Distinct m
      → Distinct n
      → (((print_if_different label (length m) (length n)).0
            ++ (print_absent missing m n ++ (print_absent extra n m ++ print_common print m n)))
          ≡ [])
        ↔ (((k : K) → is_some (lookup k m) ≡ is_some (lookup k n))
            × ((k : K) (v w : V) → lookup k m ≡ some v → lookup k n ≡ some w → print k v w ≡ []))
  unfolding has
  differences-nil_iff label missing extra print m n d f =
      let sizes = (print_if_different label (length m) (length n)).0 in
      let a = print_absent missing m n in
      let b = print_absent extra n m in
      let c = print_common print m n in
      let missing_iff = print_absent-nil_iff missing m n d in
      let extra_iff = print_absent-nil_iff extra n m f in
      (
        λ h.
            let (_, h1) = (append-nil_iff sizes (a ++ (b ++ c))).0 h in
            let (ha, h2) = (append-nil_iff a (b ++ c)).0 h1 in
            let (hb, hc) = (append-nil_iff b c).0 h2 in
            (λ k. ground (arith, missing_iff.0 ha k, extra_iff.0 hb k), common_silent print m n hc),
        λ h.
            let there : (k : K) → has k m ≡ true → has k n ≡ true = λ k p. sym (h.0 k) ∙ p in
            let back : (k : K) → has k n ≡ true → has k m ≡ true = λ k p. h.0 k ∙ p in
            let small = length-le_of_KeysIn m n d f (KeysIn-by_matches m n d there) in
            let large = length-le_of_KeysIn n m f d (KeysIn-by_matches n m f back) in
            (append-nil_iff sizes (a ++ (b ++ c))).1 (
              (print_if_different-nil_iff label (length m) (length n)).1
                  (omega (arith, small, large)),
              (append-nil_iff a (b ++ c)).1 (
                missing_iff.1 there,
                (append-nil_iff b c).1 (extra_iff.1 back, silent_common print m n f h.1),
              ),
            ),
      )

-- The same in all that a summary looks at.
pub record AgreeAccount (v w : Account) : Type 0 where
  pub nonces : v.nonce ≡ w.nonce
  pub balances : v.balance ≡ w.balance
  pub codes : v.code ≡ w.code
  pub slots : (k : Hash) → lookup k v.storage ≡ lookup k w.storage

abbrev pub AgreeAt : Option Account → Option Account → Type 0
AgreeAt none none = Unit
AgreeAt (some v) (some w) = AgreeAccount v w
AgreeAt none (some w) = ⊥
AgreeAt (some v) none = ⊥

same_slot :
    (label : Label) (o p : Option Hash)
    → is_some o ≡ is_some p
    → ((v w : Hash) → o ≡ some v → p ≡ some w → (print_if_different label v w).0 ≡ [])
    → o ≡ p
same_slot label none none s h = refl
same_slot label none (some w) s h = absurd cc
same_slot label (some v) none s h = absurd cc
same_slot label (some v) (some w) s h =
    ap some ((print_if_different-nil_iff label v w).0 (h v w refl refl))

print_account_diff_summary-nil_iff :
    (a : Address) (v w : Account)
    → Distinct v.storage
    → Distinct w.storage
    → (print_account_diff_summary a v w ≡ []) ↔ AgreeAccount v w
unfolding print_account_diff_summary
print_account_diff_summary-nil_iff a v w d f =
    let print = λ (k : Hash) (x y : Hash). (print_if_different (storage_slot a k) x y).0 in
    let slots =
      differences-nil_iff (storage_size a) (misses_slot a) (extra_slot a) print v.storage w.storage
        d f in
    let ns = (print_if_different (account_nonce a) v.nonce w.nonce).0 in
    let bs = (print_if_different_big_int (account_balance a) v.balance w.balance).0 in
    let cs = (print_if_different_bytes (account_code a) v.code w.code).0 in
    (
      λ h.
          let (hn, h1) = (append-nil_iff ns _).0 h in
          let (hb, h2) = (append-nil_iff bs _).0 h1 in
          let (hc, hs) = (append-nil_iff cs _).0 h2 in
          let (keys, values) = slots.0 hs in
          record {
            nonces = (print_if_different-nil_iff (account_nonce a) v.nonce w.nonce).0 hn;
            balances =
                (print_if_different_big_int-nil_iff (account_balance a) v.balance w.balance).0 hb;
            codes = (print_if_different_bytes-nil_iff (account_code a) v.code w.code).0 hc;
            slots = λ k.
                same_slot (storage_slot a k) (lookup k v.storage) (lookup k w.storage) (keys k)
                  (values k);
          },
      λ g. (append-nil_iff ns _).1 (
        (print_if_different-nil_iff (account_nonce a) v.nonce w.nonce).1 g.nonces,
        (append-nil_iff bs _).1 (
          (print_if_different_big_int-nil_iff (account_balance a) v.balance w.balance).1 g.balances,
          (append-nil_iff cs _).1 (
            (print_if_different_bytes-nil_iff (account_code a) v.code w.code).1 g.codes,
            slots.1 (
              λ k. ap is_some (g.slots k),
              λ k x y p q.
                  (print_if_different-nil_iff (storage_slot a k) x y).1
                    (some-injective _ _ (sym p ∙ (g.slots k ∙ q))),
            ),
          ),
        ),
      ),
    )

agree_here :
    (o p : Option Account)
    → is_some o ≡ is_some p
    → ((v w : Account) → o ≡ some v → p ≡ some w → AgreeAccount v w)
    → AgreeAt o p
agree_here none none s h = tt
agree_here none (some w) s h = absurd cc
agree_here (some v) none s h = absurd cc
agree_here (some v) (some w) s h = h v w refl refl

AgreeAt-is_some : (o p : Option Account) → AgreeAt o p → is_some o ≡ is_some p
AgreeAt-is_some none none h = refl
AgreeAt-is_some (some v) (some w) h = refl
AgreeAt-is_some none (some w) h = elim h [ ]
AgreeAt-is_some (some v) none h = elim h [ ]

-- For two allocations without a key twice, and without a slot twice in an account, the summary has
-- no line exactly if both have the same addresses and at each the same nonce, balance, code and
-- slots.
pub print_allocation_diff_summary-nil_iff :
    (want have : Alloc)
    → Distinct want
    → Distinct have
    → HasMaps want
    → HasMaps have
    → (print_allocation_diff_summary want have ≡ [])
      ↔ ((a : Address) → AgreeAt (lookup a want) (lookup a have))
unfolding print_allocation_diff_summary
print_allocation_diff_summary-nil_iff m n d f p q =
    let all =
      differences-nil_iff alloc_size missing_key extra_key print_account_diff_summary m n d f in
    let at = λ (a : Address) (v w : Account) (e : lookup a m ≡ some v) (g : lookup a n ≡ some w).
      print_account_diff_summary-nil_iff a v w (HasMaps-lookup m a p v e)
        (HasMaps-lookup n a q w g) in
    (
      λ h a.
          let (keys, values) = all.0 h in
          agree_here (lookup a m) (lookup a n) (keys a)
            (λ v w e g. (at a v w e g).0 (values a v w e g)),
      λ h. all.1 (
        λ a. AgreeAt-is_some (lookup a m) (lookup a n) (h a),
        λ a v w e g. (at a v w e g).1 (subst₂ (λ o r. AgreeAt o r) e g (h a)),
      ),
    )
