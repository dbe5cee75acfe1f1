-- ===== src/Replay/KeyLength.antt =====
-- cmd/substate-cli/replay/key_stats.go: the lengths of storage keys without leading zero bytes.
pub mod Distribution
pub mod Extracted
use substate_cli.Prelude.{
  ℕ, zero, suc, ◌+◌, ◌-◌, ◌*◌, ◌/◌, ◌%◌, ◌^◌, ◌≤◌, ◌<◌, ◌≡◌, sym, ◌∙◌, inl, inr, List, [], ◌∷◌,
  ◌++◌, arith, ◌==◌, nat_eq, nat_eqb_iff, if◌then◌else◌, Bool-cases,
}
use native.Mathlib.Nat.{div-lt_iff_lt-mul, div-add-mod, div-eq_of_lt, mod-lt, pow-succ'}
use native.Mathlib.Decide.{dec_le}
use substate_cli.GoMap.{GoMap}
use substate_cli.Types.{Hash, Alloc}
use substate_cli.Substate.{Substate}

-- `common.HashLength`
abbrev pub hash_length : ℕ
hash_length = 32

-- The byte `h[i]`: the first is the most significant.
unfoldable pub byte_at : Hash → ℕ → ℕ
byte_at h i = h / 256 ^ (31 - i) % 256

-- The loop of `getLength`: `for res > 0 && h[32-res] == 0 { res-- }`
unfoldable pub length_loop : Hash → ℕ → ℕ
length_loop h zero = zero
length_loop h (suc res) =
    let shorter = length_loop h res in
    if byte_at h (hash_length - suc res) == 0 then shorter else suc res

unfoldable pub get_length : Hash → ℕ
unfolding byte_at length_loop
get_length h = length_loop h hash_length

-- `for key := range account.Storage { keys = append(keys, key) }`
unfoldable pub storage_keys : GoMap Hash Hash → List Hash
storage_keys [] = []
storage_keys ((key, _) ∷ storage) = key ∷ storage_keys storage

unfoldable pub alloc_keys : Alloc → List Hash
unfolding storage_keys
alloc_keys [] = []
alloc_keys ((_, account) ∷ rest) = storage_keys account.storage ++ alloc_keys rest

-- The extractor of `getKeyStatsAction`.
unfoldable pub extract_keys : Substate → List Hash
unfolding alloc_keys
extract_keys st = alloc_keys st.input_alloc ++ alloc_keys st.output_alloc

-- The byte of weight `p` under a bound of 256 * p, by its quotient.
small_quotient : (h p : ℕ) → 0 < p → h < 256 * p → h / p % 256 ≡ 0 → h < p
small_quotient h p pos b z =
    let low : h / p < 256 = (div-lt_iff_lt-mul pos).1 b in
    let none_left : h / p ≡ 0 = omega (arith, low) in
    let rest : p * (h / p) + h % p ≡ h = div-add-mod h p in
    let product : p * (h / p) ≡ 0 = rw none_left (omega arith) in
    let under : h % p < p = mod-lt h pos in omega (arith, rest, product, under)

large_quotient : (h p : ℕ) → ¬ (h / p % 256 ≡ 0) → p ≤ h
large_quotient h p z = elim (dec_le p h) [
  | yes le ↦ le
  | no gt ↦
      let lt : h < p = omega arith in
      let none_left : h / p ≡ 0 = div-eq_of_lt lt in absurd (z (rw none_left (omega arith)))
]

pow_pos : (n : ℕ) → 0 < 256 ^ n
pow_pos zero = omega arith
pow_pos (suc n) = rw pow-succ' (omega (arith, pow_pos n))

-- The byte that a round looks at, by its weight.
byte_at-weight : (h res : ℕ) → res < 32 → byte_at h (hash_length - suc res) ≡ h / 256 ^ res % 256
unfolding byte_at
byte_at-weight h res r = let e : 31 - (32 - suc res) ≡ res = omega arith in rw e

abbrev pub IsLengthOf : ℕ → ℕ → Type 0
IsLengthOf h len = (h < 256 ^ len) × ((n : ℕ) → len ≡ suc n → 256 ^ n ≤ h)

length_loop-bounds :
    (h res : ℕ)
    → res ≤ 32
    → h < 256 ^ res
    → (length_loop h res ≤ res) × IsLengthOf h (length_loop h res)
unfolding length_loop
length_loop-bounds h zero r b = (omega arith, (b, λ n e. absurd (omega arith)))
length_loop-bounds h (suc res) r b = elim (Bool-cases (byte_at h (hash_length - suc res) == 0)) [
  | inl zero_byte ↦
      let z : h / 256 ^ res % 256 ≡ 0 =
        sym (byte_at-weight h res r) ∙ (nat_eqb_iff _ 0).0 zero_byte in
      let small = small_quotient h (256 ^ res) (pow_pos res) (rw pow-succ' at b) z in
      let (le, of) = length_loop-bounds h res (omega arith) small in
      rw zero_byte (omega (arith, le), of)
  | inr first_byte ↦ rw first_byte (
    omega arith,
    (
      b,
      λ n e.
          let same : n ≡ res = omega arith in
          rw same (
            large_quotient h (256 ^ res) (λ z. cc (
              first_byte,
              (nat_eqb_iff (byte_at h (hash_length - suc res)) 0).1 (byte_at-weight h res r ∙ z),
            ))),
    ),
  )
]

-- For every hash, `getLength` is at most 32 and is the number of bytes without the leading zero
-- bytes: the hash is below 256 to the length, and not below 256 to one less.
pub get_length_lem : (h : Hash) → h < 256 ^ 32 → (get_length h ≤ 32) × IsLengthOf h (get_length h)
unfolding get_length
get_length_lem h b = length_loop-bounds h 32 (omega arith) b
