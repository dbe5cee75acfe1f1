-- ===== src/Replay/Config.antt =====
-- cmd/substate-cli/replay/config.go: the block range of a command.
use substate_cli.Prelude.{
  ℕ, ◌+◌, ◌-◌, ◌*◌, ◌^◌, ◌≤◌, ◌≡◌, ◌↔◌, refl, ◌∙◌, inl, inr, Bool, true, false, ◌&&◌, ◌||◌, Option,
  none, some, List, [], ◌∷◌, arith, nat_eq, ltb, leb, if◌then◌else◌, Bool-cases,
}

-- A text is the list of its bytes. The errors of `strconv.ParseUint`.
pub data ParseError : Type 0 where
  syntax_error range_error : ParseError

abbrev pub max_uint64 : ℕ
max_uint64 = 2 ^ 64 - 1

-- The digits from the left, with the value of those before them: the first byte that is no digit
-- is a syntax error, and the first digit that leaves the range a range error.
unfoldable pub parse_digits : List ℕ → ℕ → ℕ × Option ParseError
parse_digits [] n = (n, none)
parse_digits (c ∷ rest) n =
    let more = parse_digits rest (n * 10 + (c - 48)) in
    if leb 48 c && leb c 57
    then (if ltb max_uint64 (n * 10 + (c - 48)) then (max_uint64, some range_error) else more)
    else (0, some syntax_error)

-- `strconv.ParseUint(s, 10, 64)`
unfoldable pub parse_uint : List ℕ → ℕ × Option ParseError
unfolding parse_digits
parse_uint [] = (0, some syntax_error)
parse_uint (c ∷ rest) = parse_digits (c ∷ rest) 0

-- The errors of `SetBlockRange`.
pub data RangeError : Type 0 where
  not_an_integer negative first_larger : RangeError

-- `err != nil`
abbrev is_error : Option ParseError → Bool
is_error none = false
is_error (some err) = true

-- `SetBlockRange`: both numbers are returned with every error.
unfoldable pub set_block_range : List ℕ → List ℕ → ℕ × ℕ × Option RangeError
set_block_range first_arg last_arg =
    let (first, ferr) = parse_uint first_arg in
    let (last, lerr) = parse_uint last_arg in
    if is_error ferr || is_error lerr
    then (first, last, some not_an_integer)
    else if ltb first 0 || ltb last 0
    then (first, last, some negative)
    else if ltb last first
    then (first, last, some first_larger)
    else (first, last, none)

-- A text of decimal digits, and the number that it writes after a prefix of value `n`.
abbrev is_digit : ℕ → Bool
is_digit c = leb 48 c && leb c 57

abbrev pub all_digits : List ℕ → Bool
all_digits [] = true
all_digits (c ∷ rest) = is_digit c && all_digits rest

abbrev pub decimal : List ℕ → ℕ → ℕ
decimal [] n = n
decimal (c ∷ rest) n = decimal rest (n * 10 + (c - 48))

n-le-decimal : (s : List ℕ) (n : ℕ) → n ≤ decimal s n
n-le-decimal [] n = omega arith
n-le-decimal (c ∷ rest) n = omega (arith, n-le-decimal rest (n * 10 + (c - 48)))

-- An accepted text is of digits, and its number is a uint64.
accepted_digits :
    (s : List ℕ) (n v : ℕ)
    → n ≤ max_uint64
    → parse_digits s n ≡ (v, none)
    → (all_digits s ≡ true) × (decimal s n ≤ max_uint64) × (v ≡ decimal s n)
unfolding parse_digits
accepted_digits [] n v h e = (refl, h, ground arith)
accepted_digits (c ∷ rest) n v h e = elim (Bool-cases (is_digit c)) [
  | inr no_digit ↦ ground arith
  | inl digit ↦ elim (Bool-cases (ltb max_uint64 (n * 10 + (c - 48)))) [
    | inl large ↦ ground arith
    | inr fits ↦
        let (a, b, d) = accepted_digits rest (n * 10 + (c - 48)) v (ground arith) (ground arith) in
        (rw digit a, b, d)
  ]
]

-- Such a text is accepted.
digits_accepted :
    (s : List ℕ) (n : ℕ)
    → all_digits s ≡ true
    → decimal s n ≤ max_uint64
    → parse_digits s n ≡ (decimal s n, none)
unfolding parse_digits
digits_accepted [] n a h = refl
digits_accepted (c ∷ rest) n a h =
    ground (arith, n-le-decimal rest (n * 10 + (c - 48)), digits_accepted rest (n * 10 + (c - 48)))

-- A text that is a block number: decimal digits, at least one, below 2 ^ 64 in value.
abbrev pub IsNumber : List ℕ → ℕ → Type 0
IsNumber [] v = ⊥
IsNumber (c ∷ rest) v =
    (all_digits (c ∷ rest) ≡ true)
    × (decimal (c ∷ rest) 0 ≤ max_uint64)
    × (v ≡ decimal (c ∷ rest) 0)

pub parse_uint_iff : (s : List ℕ) (v : ℕ) → (parse_uint s ≡ (v, none)) ↔ IsNumber s v
unfolding parse_uint
parse_uint_iff [] v = (λ e. ground arith, λ h. elim h [ ])
parse_uint_iff (c ∷ rest) v = (
  accepted_digits (c ∷ rest) 0 v (omega arith),
  λ h. digits_accepted (c ∷ rest) 0 h.0 h.1 ∙ cc h.2,
)

accepted_range :
    (first_arg last_arg : List ℕ) (first last : ℕ)
    → set_block_range first_arg last_arg ≡ (first, last, none)
    → (parse_uint first_arg ≡ (first, none)) × (parse_uint last_arg ≡ (last, none)) × (first ≤ last)
unfolding set_block_range
accepted_range first_arg last_arg first last e = (ground arith, ground arith, ground arith)

range_accepted :
    (first_arg last_arg : List ℕ) (first last : ℕ)
    → parse_uint first_arg ≡ (first, none)
    → parse_uint last_arg ≡ (last, none)
    → first ≤ last
    → set_block_range first_arg last_arg ≡ (first, last, none)
unfolding set_block_range
range_accepted first_arg last_arg first last f l h = ground arith

-- The range is accepted exactly if both texts are block numbers and the first is not larger than
-- the last, and then it is returned.
pub set_block_range_iff :
    (first_arg last_arg : List ℕ) (first last : ℕ)
    → (set_block_range first_arg last_arg ≡ (first, last, none))
      ↔ (IsNumber first_arg first × IsNumber last_arg last × (first ≤ last))
set_block_range_iff first_arg last_arg first last = (
  λ e.
      let (f, l, h) = accepted_range first_arg last_arg first last e in
      ((parse_uint_iff first_arg first).0 f, (parse_uint_iff last_arg last).0 l, h),
  λ h.
      range_accepted first_arg last_arg first last ((parse_uint_iff first_arg first).1 h.0)
        ((parse_uint_iff last_arg last).1 h.1) h.2,
)
