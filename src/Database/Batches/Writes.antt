-- ===== src/Database/Batches/Writes.antt =====
-- What the client of a write batch sees.
use crosschain_agent.Prelude.{
  Bool, Bytes, List, [], arith, bytes_eq, false, if◌then◌else◌, inl, inr, is_some, none, not, refl,
  some, true, ℕ, ◌∙◌, ◌∷◌, ◌≡◌,
}
use crosschain_agent.Env.{Env, GetStatus}
use crosschain_agent.Database.Batches.{
  BatchApi, Storage, batch_put, batch_delete, new_write_batch, write_batch, thread_safe_get_index,
  replicate,
}
use crosschain_agent.Exec.{Exec, done, expect, pure, zoom, ◌>>=◌}
use crosschain_agent.Database.Batches.Slots.{
  Holds, HasRoom, thread_safe_add_lem, first_free_lem, thread_safe_get_by_index_lem, get_batch_lem,
}

-- What the agent relies on of rocksdb::WriteBatch, with a disk that accepts every write: an empty batch
-- changes nothing, and an update that is added comes after those that are in the batch.
pub record BatchLaws (env : Env) (api : BatchApi env) : Type 0 where
  pub accepted : (b : api.WriteBatch) (d : env.Db) → (api.write b d).0 ≡ true
  pub write_empty : (d : env.Db) → (api.write api.empty d).1 ≡ d
  pub write_clear : (b : api.WriteBatch) (d : env.Db) → (api.write (api.clear b) d).1 ≡ d
  pub get_put :
      (k v j : Bytes) (b : api.WriteBatch) (d : env.Db)
      → env.db_get j (api.write (api.put k v b) d).1
        ≡ (if bytes_eq k j then GetStatus.ok v else env.db_get j (api.write b d).1)
  pub get_delete :
      (k j : Bytes) (b : api.WriteBatch) (d : env.Db)
      → env.db_get j (api.write (api.delete k b) d).1
        ≡ (if bytes_eq k j then GetStatus.not_found else env.db_get j (api.write b d).1)

-- An update of one key.
pub data Update : Type 0 where
  put : Bytes → Bytes → Update
  delete : Bytes → Update

abbrev updated_status : Update → Bytes → GetStatus → GetStatus
updated_status (put k v) j held = if bytes_eq k j then GetStatus.ok v else held
updated_status (delete k) j held = if bytes_eq k j then GetStatus.not_found else held

-- What a key holds after some updates, one after the other.
abbrev pub status_after : List Update → Bytes → GetStatus → GetStatus
status_after [] j held = held
status_after (u ∷ us) j held = status_after us j (updated_status u j held)

module _ (env : Env) (api : BatchApi env) where
  -- Put or Delete through an index.
  abbrev pub batch_update : ℕ → Update → Exec (Storage env api) Bool
  batch_update i (put k v) = batch_put env api i k v
  batch_update i (delete k) = batch_delete env api i k

  abbrev pub batch_updates : ℕ → List Update → Exec (Storage env api) Bool
  batch_updates i [] = pure true
  batch_updates i (u ∷ us) = do
    ret ← batch_update i u
    if not ret then pure false else batch_updates i us

  abbrev updated : Update → api.WriteBatch → api.WriteBatch
  updated (put k v) b = api.put k v b
  updated (delete k) b = api.delete k b

  abbrev filled : List Update → api.WriteBatch → api.WriteBatch
  filled [] b = b
  filled (u ∷ us) b = filled us (updated u b)

  batch_update_lem :
      (i : ℕ) (u : Update) (b : api.WriteBatch) (s : Storage env api)
      → Holds env api i b s
      → (s' : Storage env api) × (batch_update i u s ≡ done (true, s'))
        × (s'.db ≡ s.db)
        × Holds env api i (updated u b) s'
  unfolding batch_put batch_delete ◌>>=◌
  batch_update_lem i (put k v) b s (w, is_w, there, small) =
      let (s', added, same, held) =
        thread_safe_add_lem env api i (api.put k v b) (some b) w s is_w there small in
      (
        s',
        rw (thread_safe_get_by_index_lem env api i b s (w, is_w, there, small)) (rw added refl),
        same,
        held,
      )
  batch_update_lem i (delete k) b s (w, is_w, there, small) =
      let (s', added, same, held) =
        thread_safe_add_lem env api i (api.delete k b) (some b) w s is_w there small in
      (
        s',
        rw (thread_safe_get_by_index_lem env api i b s (w, is_w, there, small)) (rw added refl),
        same,
        held,
      )

  batch_updates_lem :
      (i : ℕ) (us : List Update) (b : api.WriteBatch) (s : Storage env api)
      → Holds env api i b s
      → (s' : Storage env api) × (batch_updates i us s ≡ done (true, s'))
        × (s'.db ≡ s.db)
        × Holds env api i (filled us b) s'
  unfolding ◌>>=◌
  batch_updates_lem i [] b s h = (s, refl, refl, h)
  batch_updates_lem i (u ∷ us) b s h =
      let (s₁, run₁, same₁, h₁) = batch_update_lem i u b s h in
      let (s₂, run₂, same₂, h₂) = batch_updates_lem i us (updated u b) s₁ h₁ in
      (s₂, rw run₁ (rw run₂ refl), same₂ ∙ same₁, h₂)

  -- NewWriteBatch finds a place for a new batch.
  new_write_batch_lem :
      (s : Storage env api)
      → HasRoom env api s
      → (i : ℕ) × (s' : Storage env api) × (new_write_batch env api s ≡ done (i, s'))
        × (s'.db ≡ s.db)
        × Holds env api i api.empty s'
  unfolding new_write_batch ◌>>=◌
  new_write_batch_lem s (inl absent) = (
    0,
    record s { batch = some (some api.empty ∷ replicate 99 none) },
    rw absent refl,
    refl,
    (some api.empty ∷ replicate 99 none, refl, refl, omega arith),
  )
  new_write_batch_lem s (inr (v, is_v, size, room)) =
      let (i, e, free) = first_free_lem 0 v (omega (arith, size, room)) in
      let (s', added, same, held) =
        thread_safe_add_lem env api i api.empty none v s is_v free (omega (arith, e, room)) in
      let found : thread_safe_get_index env api v ≡ some i =
        rw (thread_safe_get_index, e) (ground (arith, e, room)) in
      let there_is : is_some s.batch ≡ true = rw is_v refl in
      (
        i,
        s',
        rw (new_write_batch, there_is)
            (rw (get_batch_lem env api v s is_v) (rw (found, expect) (rw added refl))),
        same,
        held,
      )

  write_batch_step :
      (laws : BatchLaws env api) (i : ℕ) (b : api.WriteBatch) (s : Storage env api)
      → Holds env api i b s
      → (s' : Storage env api) × (write_batch env api i s ≡ done (true, s'))
        × (s'.db ≡ (api.write b s.db).1)
        × Holds env api i (api.clear b) s'
  unfolding write_batch zoom ◌>>=◌
  write_batch_step laws i b s (w, is_w, there, small) =
      let written : Storage env api = record s { db = (api.write b s.db).1 } in
      let (s', added, same, held) =
        thread_safe_add_lem env api i (api.clear b) (some b) w written is_w there small in
      let there_is : is_some s.batch ≡ true = rw is_w refl in
      (
        s',
        rw (write_batch, there_is)
            (rw (thread_safe_get_by_index_lem env api i b s (w, is_w, there, small))
              (rw (laws.accepted b s.db) (rw added refl))),
        same,
        held,
      )

  filled_lem :
      (laws : BatchLaws env api) (us : List Update) (b : api.WriteBatch) (j : Bytes) (d : env.Db)
      → env.db_get j (api.write (filled us b) d).1
        ≡ status_after us j (env.db_get j (api.write b d).1)
  filled_lem laws [] b j d = refl
  filled_lem laws (put k v ∷ us) b j d = rw (filled_lem laws us, laws.get_put) refl
  filled_lem laws (delete k ∷ us) b j d = rw (filled_lem laws us, laws.get_delete) refl

  -- If there is room for another batch and RocksDB accepts it, then NewWriteBatch gives an index, the
  -- updates through that index succeed and leave the store as it is, and WriteBatch then succeeds and
  -- makes each key hold what the updates say, one after the other, and else what it held. A second
  -- WriteBatch succeeds and changes nothing any more.
  pub write_batch_lem :
      (laws : BatchLaws env api) (us : List Update) (s : Storage env api)
      → HasRoom env api s
      → (i : ℕ) × (s₀ : Storage env api) × (s₁ : Storage env api) × (s₂ : Storage env api)
        × (s₃ : Storage env api) × (new_write_batch env api s ≡ done (i, s₀))
        × (batch_updates i us s₀ ≡ done (true, s₁))
        × (s₁.db ≡ s.db)
        × (write_batch env api i s₁ ≡ done (true, s₂))
        × ((j : Bytes) → env.db_get j s₂.db ≡ status_after us j (env.db_get j s.db))
        × (write_batch env api i s₂ ≡ done (true, s₃))
        × (s₃.db ≡ s₂.db)
  write_batch_lem laws us s room =
      let (i, s₀, run₀, same₀, h₀) = new_write_batch_lem s room in
      let (s₁, run₁, same₁, h₁) = batch_updates_lem i us api.empty s₀ h₀ in
      let (s₂, run₂, same₂, h₂) = write_batch_step laws i (filled us api.empty) s₁ h₁ in
      let (s₃, run₃, same₃, h₃) = write_batch_step laws i (api.clear (filled us api.empty)) s₂ h₂ in
      (
        i,
        s₀,
        s₁,
        s₂,
        s₃,
        run₀,
        run₁,
        same₁ ∙ same₀,
        run₂,
        (λ j. rw (same₂, filled_lem laws us api.empty, laws.write_empty, same₁ ∙ same₀) refl),
        run₃,
        same₃ ∙ laws.write_clear (filled us api.empty) s₂.db,
      )
