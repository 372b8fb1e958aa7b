-- ===== src/Database/Batches/Limits.antt =====
-- The two limits on write batches: the vector has 100 entries, while the tests of an index compare it
-- with 10000.
use crosschain_agent.Prelude.{
  Bytes, List, Option, [], arith, false, get_elem?, is_some, leb, length, none, refl, some, suc,
  true, zero, ℕ, ◌<◌, ◌∷◌, ◌≡◌, ◌≤◌,
}
use crosschain_agent.Database.Batches.{
  set_at, BatchApi, new_write_batch, batch_put, batch_delete, batch_clear, write_batch,
  thread_safe_get_by_index, DomianBatchVector, Storage, domain_batch_record_size, first_free,
  max_batch_count, thread_safe_get_index, thread_safe_add,
}
use crosschain_agent.Env.{Env}
use crosschain_agent.Exec.{expect, fault, out_of_range, ◌>>=◌}
use crosschain_agent.Database.Batches.Slots.{get_batch_lem}

module _ {B : Type 0} where
  set_at_past : (i : ℕ) (y : B) (xs : List B) → length xs ≤ i → set_at i y xs ≡ none
  unfolding set_at
  set_at_past i y [] h = refl
  set_at_past zero y (x ∷ xs) h = absurd (omega arith)
  set_at_past (suc i) y (x ∷ xs) h = rw (set_at_past i y xs (omega (arith, h))) refl

  get_elem?_past : (i : ℕ) (xs : List B) → length xs ≤ i → get_elem? xs i ≡ none
  get_elem?_past i [] h = refl
  get_elem?_past zero (x ∷ xs) h = absurd (omega arith)
  get_elem?_past (suc i) (x ∷ xs) h = get_elem?_past i xs (omega (arith, h))

module _ (env : Env) (api : BatchApi env) where
  -- If all 100 entries of the vector are batches, then NewWriteBatch writes past its end; and an index
  -- from 100 to 9999 passes the test of ThreadSafeGetByIndex, so that BatchPut, BatchDelete, BatchClear
  -- and WriteBatch read past the end.
  pub new_write_batch_full :
      (v : DomianBatchVector api.WriteBatch) (s : Storage env api) (i : ℕ) (key value : Bytes)
      → s.batch ≡ some v
      → length v ≡ domain_batch_record_size
      → first_free 0 v ≡ domain_batch_record_size
      → domain_batch_record_size ≤ i
      → i < max_batch_count
      → (new_write_batch env api s ≡ fault out_of_range)
        × (batch_put env api i key value s ≡ fault out_of_range)
        × (batch_delete env api i key s ≡ fault out_of_range)
        × (batch_clear env api i s ≡ fault out_of_range)
        × (write_batch env api i s ≡ fault out_of_range)
  unfolding new_write_batch batch_put batch_delete batch_clear write_batch thread_safe_get_by_index
      ◌>>=◌
  new_write_batch_full v s i key value is_v size taken past small =
      let there_is : is_some s.batch ≡ true = rw is_v refl in
      let found : thread_safe_get_index env api v ≡ some domain_batch_record_size =
        rw (thread_safe_get_index, taken) refl in
      let below : leb max_batch_count i ≡ false = ground (arith, small) in
      let absent : get_elem? v i ≡ none = get_elem?_past i v (omega (arith, size, past)) in
      let no_room : (b : Option api.WriteBatch) → set_at 100 b v ≡ none =
        λ b. set_at_past 100 b v (omega (arith, size)) in
      let read : thread_safe_get_by_index env api i s ≡ fault out_of_range =
        rw (get_batch_lem env api v s is_v) (rw (below, absent, expect) refl) in
      let write : thread_safe_add env api 100 (some api.empty) s ≡ fault out_of_range =
        rw (thread_safe_add, get_batch_lem env api v s is_v) (rw (no_room, expect) refl) in
      (
        rw there_is (rw (get_batch_lem env api v s is_v) (rw (found, expect) (rw write refl))),
        rw read refl,
        rw read refl,
        rw read refl,
        rw there_is (rw read refl),
      )
