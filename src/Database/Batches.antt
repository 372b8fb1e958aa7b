-- ===== src/Database/Batches.antt =====
-- Write batches: DomianBatchVector of src/database/storage_lock.cpp, ConsistentWriteBatch of
-- src/database/consistent_writebatch.cpp, and the batch methods of src/database/storage.cpp, to which
-- DatabaseManager and DatabaseProxy pass their calls on.
pub mod Slots
pub mod Writes
pub mod Limits
use crosschain_agent.Prelude.{
  Bytes, ℕ, List, none, ◌∷◌, Bool, Option, [], some, suc, if◌then◌else◌, false, true, ◌==◌, leb,
  zero, get_elem?, not, is_some,
}
use crosschain_agent.Env.{Env}
use crosschain_agent.Exec.{
  Exec, expect, ◌>>=◌, null_pointer, out_of_range, process_exit, pure, done, modify, zoom, ◌>>◌,
  state,
}

-- rocksdb::WriteBatch, and DB::Write of a batch with whether its status is OK.
pub record BatchApi (env : Env) : Type 1 where
  pub WriteBatch : Type 0
  pub empty : WriteBatch
  pub put : Bytes → Bytes → WriteBatch → WriteBatch
  pub delete : Bytes → WriteBatch → WriteBatch
  pub clear : WriteBatch → WriteBatch
  pub write : WriteBatch → env.Db → Bool × env.Db

-- MAX_BATCH_COUNT, and the size that the constructor gives to the vector.
abbrev pub max_batch_count : ℕ
max_batch_count = 10_000

abbrev pub domain_batch_record_size : ℕ
domain_batch_record_size = 100

-- An entry of the vector is a batch or a null pointer.
abbrev pub DomianBatchVector : Type 0 → Type 0
DomianBatchVector B = List (Option B)

-- What Storage keeps: a pointer to the vector, and the store.
pub record Storage (env : Env) (api : BatchApi env) : Type 0 where
  pub batch : Option (DomianBatchVector api.WriteBatch)
  pub db : env.Db

abbrev pub replicate {ℓ} : {A : Type ℓ} → ℕ → A → List A
replicate zero x = []
replicate (suc n) x = x ∷ replicate n x

abbrev pub domian_batch_vector : {B : Type 0} → DomianBatchVector B
domian_batch_vector = replicate domain_batch_record_size none

-- A write through `operator[]`, which past the end is undefined.
unfoldable pub set_at : {B : Type 0} → ℕ → B → List B → Option (List B)
set_at i b [] = none
set_at zero b (x ∷ xs) = some (b ∷ xs)
set_at (suc i) b (x ∷ xs) = elim (set_at i b xs) [ none ↦ none | some ys ↦ some (x ∷ ys) ]

-- The first null pointer from the position `i` on, or the position behind the end.
unfoldable pub first_free : {B : Type 0} → ℕ → DomianBatchVector B → ℕ
first_free i [] = i
first_free i (none ∷ v) = i
first_free i (some b ∷ v) = first_free (suc i) v

module _ (env : Env) (api : BatchApi env) where
  abbrev Run : Type 0 → Type 0
  Run A = Exec (Storage env api) A

  -- The vector, through its pointer.
  unfoldable pub get_batch : Run (DomianBatchVector api.WriteBatch)
  unfolding expect
  get_batch s = expect null_pointer s.batch s

  -- `none` is PROCESS_EXIT.
  unfoldable pub thread_safe_get_index : DomianBatchVector api.WriteBatch → Option ℕ
  unfolding first_free
  thread_safe_get_index v =
      let index = first_free 0 v in if index == max_batch_count then none else some index

  unfoldable pub thread_safe_add : ℕ → Option api.WriteBatch → Run Unit
  unfolding get_batch set_at ◌>>=◌
  thread_safe_add index b = do
    v ← get_batch
    w ← expect out_of_range (set_at index b v)
    modify (λ s. record s { batch = some w })

  unfoldable pub thread_safe_get_by_index : ℕ → Run (Option api.WriteBatch)
  unfolding get_batch ◌>>=◌
  thread_safe_get_by_index index = do
    v ← get_batch
    if leb max_batch_count index then pure none else expect out_of_range (get_elem? v index)

  -- NewWriteBatch with a vector that is there, and without one. The answer is the index in the
  -- BatchIndex.
  abbrev new_in_existing : Run ℕ
  new_in_existing = do
    v ← get_batch
    index ← expect process_exit (thread_safe_get_index v)
    thread_safe_add index (some api.empty)
    pure index

  abbrev new_in_first : Run ℕ
  new_in_first = do
    modify (λ s. record s { batch = some domian_batch_vector })
    thread_safe_add 0 (some api.empty)
    pure 0

  unfoldable pub new_write_batch : Run ℕ
  unfolding get_batch thread_safe_get_index thread_safe_add ◌>>=◌
  new_write_batch s = if is_some s.batch then new_in_existing s else new_in_first s

  unfoldable pub release_batch : ℕ → Run Unit
  unfolding thread_safe_add
  release_batch batch_index = thread_safe_add batch_index none

  -- A method of the batch at an index, which changes the object that the vector points to.
  abbrev with_batch : ℕ → Bool → (api.WriteBatch → api.WriteBatch) → Run Bool
  with_batch batch_index absent change = do
    batch_ptr ← thread_safe_get_by_index batch_index
    elim batch_ptr [
      | none ↦ pure absent
      | some b ↦ (do thread_safe_add batch_index (some (change b)); pure true)
    ]

  unfoldable pub batch_put : ℕ → Bytes → Bytes → Run Bool
  unfolding thread_safe_get_by_index thread_safe_add ◌>>=◌
  batch_put batch_index key value = with_batch batch_index false (api.put key value)

  unfoldable pub batch_delete : ℕ → Bytes → Run Bool
  unfolding thread_safe_get_by_index thread_safe_add ◌>>=◌
  batch_delete batch_index key = with_batch batch_index false (api.delete key)

  unfoldable pub batch_clear : ℕ → Run Bool
  unfolding thread_safe_get_by_index thread_safe_add ◌>>=◌
  batch_clear batch_index = with_batch batch_index true api.clear

  -- The end of WriteBatch.
  abbrev emptied : ℕ → api.WriteBatch → Run Bool
  emptied batch_index b = thread_safe_add batch_index (some (api.clear b)) >> pure true

  -- The rest of WriteBatch, for a vector that is there.
  abbrev write_existing : ℕ → Run Bool
  write_existing batch_index = do
    batch_ptr ← thread_safe_get_by_index batch_index
    elim batch_ptr [
      | none ↦ pure false
      | some b ↦ (do
        ret ← zoom (λ s. s.db) (λ s d. record s { db = d }) (state (api.write b))
        if not ret then pure false else emptied batch_index b)
    ]

  unfoldable pub write_batch : ℕ → Run Bool
  unfolding thread_safe_get_by_index thread_safe_add ◌>>=◌ zoom
  write_batch batch_index s =
      if not (is_some s.batch) then done (false, s) else write_existing batch_index s
