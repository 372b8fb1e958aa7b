-- ===== src/Map/Order.antt =====
-- The keys of a map stand in strictly increasing order, whatever is done to it.
use crosschain_agent.Prelude.{
  ◌≡◌, true, Bytes, bytes_lt, bytes_eq_iff, bytes_lt_trans, bytes_lt_total, none, [], ◌∷◌, arith,
  Option-cases, inl, inr,
}
use crosschain_agent.Map.{Map, find, insert, emplace, erase, update}

module _ {ℓ} {V : Type ℓ} where
  -- Every key of `m` is greater than `k`.
  abbrev pub Above : Bytes → Map V → Type 0
  Above k [] = Unit
  Above k ((j, v) ∷ m) = (bytes_lt k j ≡ true) × Above k m

  abbrev pub IsSorted : Map V → Type 0
  IsSorted [] = Unit
  IsSorted ((j, v) ∷ m) = Above j m × IsSorted m

  Above-trans : (i k : Bytes) (m : Map V) → bytes_lt i k ≡ true → Above k m → Above i m
  Above-trans i k [] h a = tt
  Above-trans i k ((j, v) ∷ m) h a = (bytes_lt_trans i k j h a.0, Above-trans i k m h a.1)

  Above-insert :
      (i k : Bytes) (v : V) (m : Map V) → bytes_lt i k ≡ true → Above i m → Above i (insert k v m)
  unfolding insert
  Above-insert i k v [] h a = (h, tt)
  Above-insert i k v ((j, w) ∷ m) h a = ground (arith, Above-insert i k v m h a.1)

  insert-IsSorted :
      (k : Bytes) (v : V) (m : Map V) → find k m ≡ none → IsSorted m → IsSorted (insert k v m)
  unfolding insert find
  insert-IsSorted k v [] n s = (tt, tt)
  insert-IsSorted k v ((j, w) ∷ m) n s = ground (
    arith,
    Above-trans k j m,
    Above-insert j k v m,
    insert-IsSorted k v m,
    bytes_eq_iff j k,
    bytes_lt_total k j,
  )

  Above-erase : (i k : Bytes) (m : Map V) → Above i m → Above i (erase k m)
  unfolding erase
  Above-erase i k [] a = tt
  Above-erase i k ((j, w) ∷ m) a = ground (arith, Above-erase i k m a.1)

  Above-update : (i k : Bytes) (f : V → V) (m : Map V) → Above i m → Above i (update k f m)
  unfolding update
  Above-update i k f [] a = tt
  Above-update i k f ((j, w) ∷ m) a = ground (arith, Above-update i k f m a.1)

  pub emplace-IsSorted : (k : Bytes) (v : V) (m : Map V) → IsSorted m → IsSorted (emplace k v m)
  unfolding emplace
  emplace-IsSorted k v m s = elim (Option-cases (find k m)) [
    | inl e ↦ rw (e, emplace) (insert-IsSorted k v m e s)
    | inr (w, e) ↦ rw (e, emplace) s
  ]

  pub erase-IsSorted : (k : Bytes) (m : Map V) → IsSorted m → IsSorted (erase k m)
  unfolding erase
  erase-IsSorted k [] s = tt
  erase-IsSorted k ((j, w) ∷ m) s = ground (arith, Above-erase j k m s.0, erase-IsSorted k m s.1)

  pub update-IsSorted : (k : Bytes) (f : V → V) (m : Map V) → IsSorted m → IsSorted (update k f m)
  unfolding update
  update-IsSorted k f [] s = tt
  update-IsSorted k f ((j, w) ∷ m) s =
      ground (arith, Above-update j k f m s.0, update-IsSorted k f m s.1)
