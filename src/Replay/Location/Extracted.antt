-- ===== src/Replay/Location/Extracted.antt =====
-- The locations that a transaction accesses stand for the pairs of an address and a key.
use substate_cli.Prelude.{ℕ, ◌≡◌, some, List, [], ◌∷◌, ◌++◌, nat_eq}
use substate_cli.GoMap.{GoMap, lookup}
use substate_cli.Types.{Address, Hash, Alloc}
use substate_cli.Substate.{Substate}
use substate_cli.Replay.Location.{
  get, Location, Indices, key_locations, alloc_locations, extract_locations,
}
use substate_cli.Replay.Location.Numbering.{IsNumbering, get-Answers}

-- The pairs that the loops meet, in their order.
abbrev pub slots_at : Address → GoMap Hash Hash → List (Address × Hash)
slots_at a [] = []
slots_at a ((key, _) ∷ storage) = (a, key) ∷ slots_at a storage

abbrev pub slots_in : Alloc → List (Address × Hash)
slots_in [] = []
slots_in ((a, account) ∷ rest) = slots_at a account.storage ++ slots_in rest

-- Each location has the numbers of its address and its key.
abbrev pub Located : Indices → List (Address × Hash) → List Location → Type 0
Located ids [] [] = Unit
Located ids ((a, k) ∷ slots) (l ∷ locations) =
    (lookup a ids.addresses ≡ some l.address_id)
    × (lookup k ids.keys ≡ some l.key_id)
    × Located ids slots locations
Located ids [] (l ∷ locations) = ⊥
Located ids (s ∷ slots) [] = ⊥

pub record AreNumberings (ids : Indices) : Type 0 where
  pub addresses : IsNumbering ids.addresses
  pub keys : IsNumbering ids.keys

-- Numbers once given stay.
pub record Extends (ids ids' : Indices) : Type 0 where
  pub addresses :
      (a : Address) (n : ℕ) → lookup a ids.addresses ≡ some n → lookup a ids'.addresses ≡ some n
  pub keys : (k : Hash) (n : ℕ) → lookup k ids.keys ≡ some n → lookup k ids'.keys ≡ some n

-- A loop keeps the numberings, and locates the pairs that it meets.
pub record Extraction (ids : Indices) (slots : List (Address × Hash)) (r : Indices × List Location)
    : Type 0 where
  pub numberings : AreNumberings r.0
  pub extends : Extends ids r.0
  pub located : Located r.0 slots r.1

pub Extends-trans : {i j k : Indices} → Extends i j → Extends j k → Extends i k
Extends-trans e f = record {
  addresses = λ a n h. f.addresses a n (e.addresses a n h);
  keys = λ a n h. f.keys a n (e.keys a n h);
}

pub Located-Extends :
    {i j : Indices} (slots : List (Address × Hash)) (ls : List Location)
    → Extends i j
    → Located i slots ls
    → Located j slots ls
Located-Extends [] [] e h = tt
Located-Extends ((a, k) ∷ slots) (l ∷ ls) e h =
    (e.addresses a l.address_id h.0, e.keys k l.key_id h.1, Located-Extends slots ls e h.2)
Located-Extends [] (l ∷ ls) e h = elim h [ ]
Located-Extends (s ∷ slots) [] e h = elim h [ ]

pub Located-append :
    (i : Indices) (slots others : List (Address × Hash)) (ls ms : List Location)
    → Located i slots ls
    → Located i others ms
    → Located i (slots ++ others) (ls ++ ms)
Located-append i [] others [] ms h g = g
Located-append i ((a, k) ∷ slots) others (l ∷ ls) ms h g =
    (h.0, h.1, Located-append i slots others ls ms h.2 g)
Located-append i [] others (l ∷ ls) ms h g = elim h [ ]
Located-append i (s ∷ slots) others [] ms h g = elim h [ ]

key_locations-Extraction :
    (a : Address) (address_id : ℕ) (storage : GoMap Hash Hash) (ids : Indices)
    → AreNumberings ids
    → lookup a ids.addresses ≡ some address_id
    → Extraction ids (slots_at a storage) (key_locations address_id storage ids)
unfolding key_locations
key_locations-Extraction a address_id [] ids v h = record {
  numberings = v;
  extends = record { addresses = λ x n e. e; keys = λ x n e. e };
  located = tt;
}
key_locations-Extraction a address_id ((key, _) ∷ storage) ids v h =
    let asked = get-Answers key ids.keys v.keys in
    let next : Indices = record ids { keys = (get key ids.keys).0 } in
    let rest =
      key_locations-Extraction a address_id storage next
        (record { addresses = v.addresses; keys = asked.numbering }) h in
    record {
      numberings = rest.numberings;
      extends =
          Extends-trans {i = ids} {j = next} (record { addresses = λ x n e. e; keys = asked.kept })
            rest.extends;
      located = (
        rest.extends.addresses a address_id h,
        rest.extends.keys key _ asked.answer,
        rest.located,
      );
    }

alloc_locations-Extraction :
    (alloc : Alloc) (ids : Indices)
    → AreNumberings ids
    → Extraction ids (slots_in alloc) (alloc_locations alloc ids)
unfolding alloc_locations
alloc_locations-Extraction [] ids v = record {
  numberings = v;
  extends = record { addresses = λ x n e. e; keys = λ x n e. e };
  located = tt;
}
alloc_locations-Extraction ((a, account) ∷ rest) ids v =
    let asked = get-Answers a ids.addresses v.addresses in
    let next : Indices = record ids { addresses = (get a ids.addresses).0 } in
    let first =
      key_locations-Extraction a (get a ids.addresses).1 account.storage next
        (record { addresses = asked.numbering; keys = v.keys }) asked.answer in
    let others = alloc_locations-Extraction rest _ first.numberings in
    record {
      numberings = others.numberings;
      extends =
          Extends-trans {i = ids} {j = next} (record { addresses = asked.kept; keys = λ x n e. e })
            (Extends-trans first.extends others.extends);
      located =
          Located-append _ (slots_at a account.storage) (slots_in rest) _ _
            (Located-Extends (slots_at a account.storage) _ others.extends first.located)
            others.located;
    }

-- If each of the two indices numbers its values below its size and no two alike, then after the
-- extraction from a transaction they do so too and have kept all numbers, and the locations are,
-- in the order of the loops, the numbers of the address and of the key of each slot of the two
-- allocations.
pub extract_locations-Extraction :
    (st : Substate) (ids : Indices)
    → AreNumberings ids
    → Extraction ids
        (slots_in st.input_alloc ++ slots_in st.output_alloc)
        (extract_locations st ids)
unfolding extract_locations
extract_locations-Extraction st ids v =
    let first = alloc_locations-Extraction st.input_alloc ids v in
    let second = alloc_locations-Extraction st.output_alloc _ first.numberings in
    record {
      numberings = second.numberings;
      extends = Extends-trans first.extends second.extends;
      located =
          Located-append _ (slots_in st.input_alloc) (slots_in st.output_alloc) _ _
            (Located-Extends (slots_in st.input_alloc) _ second.extends first.located)
            second.located;
    }
