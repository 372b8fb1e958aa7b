-- ===== src/Map/Laws.antt =====
-- What a look-up finds after each operation on a map.
use crosschain_agent.Prelude.{
  ◌≡◌, refl, Bytes, bytes_eq, bytes_eq_iff, ◌||◌, ◌&&◌, not, Option, none, some, [], ◌∷◌,
  if◌then◌else◌, arith,
}
use crosschain_agent.Map.{Map, find, has, insert, emplace, erase, update}

module _ {ℓ} {V : Type ℓ} where
  find-insert :
      (k j : Bytes) (v : V) (m : Map V)
      → find k m ≡ none
      → find j (insert k v m) ≡ (if bytes_eq k j then some v else find j m)
  unfolding find insert
  find-insert k j v [] h = refl
  find-insert k j v ((i, w) ∷ m) h =
      ground (arith, find-insert k j v m, bytes_eq_iff k j, bytes_eq_iff i j, bytes_eq_iff i k)

  abbrev pub or_new : Option V → V → V
  or_new none v = v
  or_new (some w) v = w

  -- `emplace` adds its entry only if the key is new.
  pub find-emplace :
      (k j : Bytes) (v : V) (m : Map V)
      → find j (emplace k v m) ≡ (if bytes_eq k j then some (or_new (find k m) v) else find j m)
  unfolding emplace
  find-emplace k j v m = ground (arith, find-insert k j v m, bytes_eq_iff k j)

  pub find-erase :
      (k j : Bytes) (m : Map V) → find j (erase k m) ≡ (if bytes_eq k j then none else find j m)
  unfolding find erase
  find-erase k j [] = ground arith
  find-erase k j ((i, w) ∷ m) =
      ground (arith, find-erase k j m, bytes_eq_iff k j, bytes_eq_iff i j, bytes_eq_iff i k)

  abbrev pub mapped : (V → V) → Option V → Option V
  mapped f none = none
  mapped f (some v) = some (f v)

  pub find-update :
      (k j : Bytes) (f : V → V) (m : Map V)
      → find j (update k f m) ≡ (if bytes_eq k j then mapped f (find j m) else find j m)
  unfolding find update
  find-update k j f [] = ground arith
  find-update k j f ((i, w) ∷ m) =
      ground (arith, find-update k j f m, bytes_eq_iff k j, bytes_eq_iff i j, bytes_eq_iff i k)

  pub has-emplace :
      (k j : Bytes) (v : V) (m : Map V) → has j (emplace k v m) ≡ bytes_eq k j || has j m
  has-emplace k j v m = ground (arith, find-emplace k j v m)

  pub has-erase : (k j : Bytes) (m : Map V) → has j (erase k m) ≡ not (bytes_eq k j) && has j m
  has-erase k j m = ground (arith, find-erase k j m)

  pub has-update : (k j : Bytes) (f : V → V) (m : Map V) → has j (update k f m) ≡ has j m
  has-update k j f m = ground (arith, find-update k j f m)

pub ruleset map_laws = (find-emplace, find-erase, find-update)
