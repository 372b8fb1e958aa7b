-- ===== src/Network/IdMap.antt =====
-- `std::map<int64_t, V>`: a list of entries in the order of their keys, with the laws of a look-up.
use crosschain_agent.Prelude.{
  ℤ, List, Option, ◌∷◌, ◌≡◌, [], none, if◌then◌else◌, some, eqb_ℤ, ltb_ℤ, arith, refl,
}

abbrev pub IdMap : Type 0 → Type 0
IdMap V = List (ℤ × V)

module _ {V : Type 0} where
  unfoldable pub find : ℤ → IdMap V → Option V
  find k [] = none
  find k ((j, v) ∷ m) = if eqb_ℤ j k then some v else find k m

  -- An entry that is there already stays as it is.
  unfoldable pub insert : ℤ → V → IdMap V → IdMap V
  insert k v [] = (k, v) ∷ []
  insert k v ((j, w) ∷ m) =
      let rest = insert k v m in
      if eqb_ℤ j k then (j, w) ∷ m else if ltb_ℤ k j then (k, v) ∷ (j, w) ∷ m else (j, w) ∷ rest

  unfoldable pub erase : ℤ → IdMap V → IdMap V
  erase k [] = []
  erase k ((j, v) ∷ m) = let rest = erase k m in if eqb_ℤ j k then rest else (j, v) ∷ rest

  -- A write to the object that an entry points to.
  unfoldable pub update : ℤ → (V → V) → IdMap V → IdMap V
  update k f [] = []
  update k f ((j, v) ∷ m) = if eqb_ℤ j k then (j, f v) ∷ m else (j, v) ∷ update k f m

  pub find-insert :
      (k j : ℤ) (v : V) (m : IdMap V)
      → find k m ≡ none
      → find j (insert k v m) ≡ (if eqb_ℤ k j then some v else find j m)
  unfolding find insert
  find-insert k j v [] h = refl
  find-insert k j v ((i, w) ∷ m) h = ground (arith, find-insert k j v m)

  pub find-erase :
      (k j : ℤ) (m : IdMap V) → find j (erase k m) ≡ (if eqb_ℤ k j then none else find j m)
  unfolding find erase
  find-erase k j [] = ground arith
  find-erase k j ((i, w) ∷ m) = ground (arith, find-erase k j m)

  abbrev pub mapped : (V → V) → Option V → Option V
  mapped f none = none
  mapped f (some v) = some (f v)

  pub find-update :
      (k j : ℤ) (f : V → V) (m : IdMap V)
      → find j (update k f m) ≡ (if eqb_ℤ k j then mapped f (find j m) else find j m)
  unfolding find update
  find-update k j f [] = ground arith
  find-update k j f ((i, w) ∷ m) = ground (arith, find-update k j f m)
