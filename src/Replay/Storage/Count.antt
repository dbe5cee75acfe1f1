-- ===== src/Replay/Storage/Count.antt =====
-- `computeStorageSizes` against a count of the non-zero cells.
use substate_cli.Prelude.{
  ℕ, ◌+◌, ◌*◌, ◌%◌, ◌^◌, ◌≤◌, ◌<◌, ◌≡◌, refl, none, [], ◌∷◌, arith, ◌==◌, nat_eq, nat_eqb_iff,
  if◌then◌else◌, length,
}
use substate_cli.Prelude.Int.{pos, ◌-ℤ◌}
use substate_cli.GoMap.{GoMap, range, lookup, has, get_or, Distinct}
use substate_cli.Types.{Hash, zero_hash}
use substate_cli.Replay.Storage.{word, signed, Sizes, count_out, count_in, compute_storage_sizes}

-- 1 for a cell that is not zero.
abbrev pub cell : Hash → ℕ
cell v = if v == zero_hash then 0 else 1

-- The number of cells of a storage that are not zero.
unfoldable pub cells : GoMap Hash Hash → ℕ
cells [] = 0
cells ((k, v) ∷ m) = cell v + cells m

abbrev cell_at : Hash → GoMap Hash Hash → ℕ
cell_at k m = cell (get_or k m zero_hash)

-- The non-zero cells of `m` at the keys of `n`, counted over `n`.
at_keys_of : GoMap Hash Hash → GoMap Hash Hash → ℕ
at_keys_of m [] = 0
at_keys_of m ((k, v) ∷ n) = cell_at k m + at_keys_of m n

-- The non-zero cells of `m` whose key `n` has, counted over `m`; and the others.
shared : GoMap Hash Hash → GoMap Hash Hash → ℕ
shared [] n = 0
shared ((k, v) ∷ m) n = (if has k n then cell v else 0) + shared m n

only : GoMap Hash Hash → GoMap Hash Hash → ℕ
only [] n = 0
only ((k, v) ∷ m) n = (if has k n then 0 else cell v) + only m n

cells-le-length : (m : GoMap Hash Hash) → cells m ≤ length m
unfolding cells
cells-le-length [] = omega arith
cells-le-length ((k, v) ∷ m) = ground (arith, cells-le-length m)

cells-split : (m n : GoMap Hash Hash) → cells m ≡ shared m n + only m n
unfolding cells shared only
cells-split [] n = omega arith
cells-split ((k, v) ∷ m) n = ground (arith, cells-split m n)

shared-nil : (m : GoMap Hash Hash) → shared m [] ≡ 0
unfolding shared has
shared-nil [] = refl
shared-nil ((k, v) ∷ m) = ground (arith, shared-nil m)

shared-cons :
    (m n : GoMap Hash Hash) (k v : Hash)
    → Distinct m
    → lookup k n ≡ none
    → shared m ((k, v) ∷ n) ≡ cell_at k m + shared m n
unfolding shared has get_or lookup
shared-cons [] n k v d h = omega arith
shared-cons ((j, w) ∷ m) n k v d h =
    ground (arith, nat_eqb_iff k j, nat_eqb_iff j k, shared-cons m n k v d.1, d.0)

at_keys_of-eq-shared :
    (m n : GoMap Hash Hash) → Distinct m → Distinct n → at_keys_of m n ≡ shared m n
unfolding at_keys_of
at_keys_of-eq-shared m [] d e = omega (arith, shared-nil m)
at_keys_of-eq-shared m ((k, v) ∷ n) d e =
    omega (arith, shared-cons m n k v d e.0, at_keys_of-eq-shared m n d e.1)

count_out-round :
    (m : GoMap Hash Hash) (s : Sizes) (k v : Hash)
    → ((count_out m s k v).in_update_size ≡ s.in_update_size)
      × ((count_out m s k v).out_update_size % word ≡ (s.out_update_size + cell v) % word)
      × (((count_out m s k v).delta_size + cell_at k m) % word ≡ (s.delta_size + cell v) % word)
unfolding count_out get_or
count_out-round m s k v = (refl, ground arith, ground arith)

count_in-round :
    (n : GoMap Hash Hash) (s : Sizes) (k v : Hash)
    → ((count_in n s k v).out_update_size ≡ s.out_update_size)
      × ((count_in n s k v).in_update_size % word ≡ (s.in_update_size + cell v) % word)
      × (((count_in n s k v).delta_size + (if has k n then 0 else cell v)) % word
          ≡ s.delta_size % word)
unfolding count_in
count_in-round n s k v = (refl, ground arith, ground arith)

-- The loop over the output, modulo 2 ^ 64.
count_out-range :
    (m n : GoMap Hash Hash) (s : Sizes)
    → ((range (count_out m) n s).in_update_size ≡ s.in_update_size)
      × (((range (count_out m) n s).out_update_size) % word ≡ (s.out_update_size + cells n) % word)
      × (((range (count_out m) n s).delta_size + at_keys_of m n) % word
          ≡ (s.delta_size + cells n) % word)
unfolding range cells at_keys_of
count_out-range m [] s = ground arith
count_out-range m ((k, v) ∷ n) s =
    omega (arith, count_out-round m s k v, count_out-range m n (count_out m s k v))

count_in-range :
    (m n : GoMap Hash Hash) (s : Sizes)
    → ((range (count_in n) m s).out_update_size ≡ s.out_update_size)
      × (((range (count_in n) m s).in_update_size) % word ≡ (s.in_update_size + cells m) % word)
      × (((range (count_in n) m s).delta_size + only m n) % word ≡ s.delta_size % word)
unfolding range cells only
count_in-range [] n s = ground arith
count_in-range ((k, v) ∷ m) n s =
    omega (arith, count_in-round n s k v, count_in-range m n (count_in n s k v))

-- For two storages without a key twice, modulo 2 ^ 64: the sizes are 32 bytes for each cell that
-- is not zero, and the difference is the output's size less the input's.
pub compute_storage_sizes-modular :
    (m n : GoMap Hash Hash)
    → Distinct m
    → Distinct n
    → ((compute_storage_sizes m n).in_update_size ≡ (32 * cells m) % word)
      × ((compute_storage_sizes m n).out_update_size ≡ (32 * cells n) % word)
      × (((compute_storage_sizes m n).delta_size + 32 * cells m) % word ≡ (32 * cells n) % word)
      × ((compute_storage_sizes m n).delta_size < word)
unfolding compute_storage_sizes
compute_storage_sizes-modular m n d e =
    let start : Sizes = record { delta_size = 0; in_update_size = 0; out_update_size = 0 } in
    let s = range (count_out m) n start in
    omega (
      arith,
      count_out-range m n start,
      count_in-range m n s,
      cells-split m n,
      at_keys_of-eq-shared m n d e,
    )

-- For two storages without a key twice and with fewer than 2 ^ 57 entries each, the two sizes are
-- 32 bytes for each cell that is not zero, and the signed difference is the output's size less the
-- input's: no operation overflows.
pub compute_storage_sizes_lem :
    (m n : GoMap Hash Hash)
    → Distinct m
    → Distinct n
    → length m < 2 ^ 57
    → length n < 2 ^ 57
    → ((compute_storage_sizes m n).in_update_size ≡ 32 * cells m)
      × ((compute_storage_sizes m n).out_update_size ≡ 32 * cells n)
      × (signed (compute_storage_sizes m n).delta_size ≡ pos (32 * cells n) -ℤ pos (32 * cells m))
unfolding ◌-ℤ◌
compute_storage_sizes_lem m n d e hm hn =
    let facts = compute_storage_sizes-modular m n d e in
    (
      omega (arith, facts, cells-le-length m),
      omega (arith, facts, cells-le-length n),
      ground (arith, facts, cells-le-length m, cells-le-length n),
    )
