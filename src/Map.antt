-- ===== src/Map.antt =====
-- `std::map<std::string, V>`: a list of entries in the order of their keys. The laws of the operations
-- are in the modules below.
pub mod Laws
pub mod Order
use crosschain_agent.Prelude.{
  ◌≡◌, Bytes, bytes_eq, bytes_lt, Bool, Option, none, some, List, [], ◌∷◌, if◌then◌else◌, is_some,
}

abbrev pub Map {ℓ} : Type ℓ → Type ℓ
Map V = List (Bytes × V)

module _ {ℓ} {V : Type ℓ} where
  unfoldable pub find : Bytes → Map V → Option V
  find k [] = none
  find k ((j, v) ∷ m) = if bytes_eq j k then some v else find k m

  abbrev pub has : Bytes → Map V → Bool
  has k m = is_some (find k m)

  -- A new entry goes in front of the first one with a greater key.
  unfoldable pub insert : Bytes → V → Map V → Map V
  insert k v [] = (k, v) ∷ []
  insert k v ((j, w) ∷ m) = if bytes_lt k j then (k, v) ∷ (j, w) ∷ m else (j, w) ∷ insert k v m

  -- An entry that is there already stays as it is.
  unfoldable pub emplace : Bytes → V → Map V → Map V
  unfolding insert
  emplace k v m = elim (find k m) [ none ↦ insert k v m | some w ↦ m ]

  unfoldable pub erase : Bytes → Map V → Map V
  erase k [] = []
  erase k ((j, v) ∷ m) = let rest = erase k m in if bytes_eq j k then rest else (j, v) ∷ rest

  -- A write through the pointer that the entry of a key holds.
  unfoldable pub update : Bytes → (V → V) → Map V → Map V
  update k f [] = []
  update k f ((j, v) ∷ m) = if bytes_eq j k then (j, f v) ∷ m else (j, v) ∷ update k f m

  -- The first entry whose key is greater than a given one.
  unfoldable pub upper_bound : Bytes → Map V → Option (Bytes × V)
  upper_bound k [] = none
  upper_bound k ((j, v) ∷ m) = if bytes_lt k j then some (j, v) else upper_bound k m

  unfoldable pub begin : Map V → Option (Bytes × V)
  begin [] = none
  begin (e ∷ m) = some e
