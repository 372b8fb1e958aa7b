-- ===== src/Database/Batches/Slots.antt =====
-- The entries of the vector of batches: what a write, a look-up and a search for a free entry give.
use crosschain_agent.Prelude.{
  List, Option, [], arith, false, get_elem?, leb, length, none, refl, some, suc, zero, ℕ, ◌+◌, ◌<◌,
  ◌∷◌, ◌≡◌, ◌⊎◌,
}
use crosschain_agent.Env.{Env}
use crosschain_agent.Database.Batches.{
  set_at, BatchApi, Storage, DomianBatchVector, first_free, thread_safe_add, max_batch_count,
  domain_batch_record_size, thread_safe_get_by_index, get_batch,
}
use crosschain_agent.Exec.{done, expect, ◌>>=◌}

module _ {B : Type 0} where
  set_at-get_elem :
      (i : ℕ) (x y : B) (xs : List B)
      → get_elem? xs i ≡ some x
      → (ys : List B) × (set_at i y xs ≡ some ys) × (get_elem? ys i ≡ some y)
  unfolding set_at
  set_at-get_elem i x y [] h = absurd (nothing_there h)
    where
      nothing_there : none ≡ some x → ⊥
      nothing_there e = cc
  set_at-get_elem zero x y (z ∷ xs) h = (y ∷ xs, refl, refl)
  set_at-get_elem (suc i) x y (z ∷ xs) h =
      let (ys, e, here) = set_at-get_elem i x y xs h in (z ∷ ys, rw (set_at, e) refl, here)

  -- The position that is found is free, unless it is behind the end.
  pub first_free_lem :
      (n : ℕ) (v : DomianBatchVector B)
      → first_free n v < n + length v
      → (i : ℕ) × (first_free n v ≡ n + i) × (get_elem? v i ≡ some none)
  unfolding first_free
  first_free_lem n [] h = absurd (omega arith)
  first_free_lem n (none ∷ v) h = (0, omega arith, refl)
  first_free_lem n (some b ∷ v) h =
      let (i, e, free) = first_free_lem (suc n) v (omega (arith, h)) in
      (suc i, omega (arith, e), free)

module _ (env : Env) (api : BatchApi env) where
  -- The batch `b` is at the index `i`.
  abbrev pub Holds : ℕ → api.WriteBatch → Storage env api → Type 0
  Holds i b s =
      (v : DomianBatchVector api.WriteBatch) × (s.batch ≡ some v)
      × (get_elem? v i ≡ some (some b))
      × (i < max_batch_count)

  -- There is no vector yet, or one of the size that the constructor gives and with a free position.
  abbrev pub HasRoom : Storage env api → Type 0
  HasRoom s =
      (s.batch ≡ none)
      ⊎ ((v : DomianBatchVector api.WriteBatch) × (s.batch ≡ some v)
          × (length v ≡ domain_batch_record_size)
          × (first_free 0 v < domain_batch_record_size))

  pub get_batch_lem :
      (v : DomianBatchVector api.WriteBatch) (s : Storage env api)
      → s.batch ≡ some v
      → get_batch env api s ≡ done (v, s)
  unfolding get_batch
  get_batch_lem v s is_v = rw (is_v, expect) refl

  pub thread_safe_add_lem :
      (i : ℕ) (c : api.WriteBatch) (x : Option api.WriteBatch)
      (v : DomianBatchVector api.WriteBatch) (s : Storage env api)
      → s.batch ≡ some v
      → get_elem? v i ≡ some x
      → i < max_batch_count
      → (s' : Storage env api) × (thread_safe_add env api i (some c) s ≡ done (tt, s'))
        × (s'.db ≡ s.db)
        × Holds i c s'
  unfolding thread_safe_add ◌>>=◌
  thread_safe_add_lem i c x v s is_v there small =
      let (w, e, here) = set_at-get_elem i x (some c) v there in
      (
        record s { batch = some w },
        rw (get_batch_lem v s is_v) (rw (e, expect) refl),
        refl,
        (w, refl, here, small),
      )

  pub thread_safe_get_by_index_lem :
      (i : ℕ) (b : api.WriteBatch) (s : Storage env api)
      → Holds i b s
      → thread_safe_get_by_index env api i s ≡ done (some b, s)
  unfolding thread_safe_get_by_index ◌>>=◌
  thread_safe_get_by_index_lem i b s (v, is_v, there, small) =
      let below : leb max_batch_count i ≡ false = ground (arith, small) in
      rw (get_batch_lem v s is_v) (rw (below, there, expect) refl)
