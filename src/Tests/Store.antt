-- ===== src/Tests/Store.antt =====
-- Runs of write batches.
use crosschain_agent.Prelude.{
  Bytes, ℕ, true, List, none, codes, some, [], ◌∷◌, ◌≡◌, refl, inl, arith,
}
use crosschain_agent.Database.Batches.Writes.{
  BatchLaws, Update, put, delete, batch_updates, status_after, write_batch_lem,
}
use crosschain_agent.Database.Batches.{
  BatchApi, Storage, DomianBatchVector, first_free, new_write_batch, replicate, write_batch,
  batch_put, batch_delete, batch_clear,
}
use crosschain_agent.Tests.Network.{test_env, test_env-DbLaws}
use crosschain_agent.Map.{Map, emplace, erase}
use crosschain_agent.Exec.{done, fault, out_of_range}
use crosschain_agent.Database.Batches.Limits.{new_write_batch_full}

-- A batch as the change that it makes to the store.
abbrev batches : BatchApi test_env
batches = record {
  WriteBatch = Map Bytes → Map Bytes;
  empty = λ d. d;
  put = λ k v b d. emplace k v (erase k (b d));
  delete = λ k b d. erase k (b d);
  clear = λ b d. d;
  write = λ b d. (true, b d);
}

batches-BatchLaws : BatchLaws test_env batches
batches-BatchLaws = record {
  accepted = λ b d. refl;
  write_empty = λ d. refl;
  write_clear = λ b d. refl;
  get_put = λ k v j b d. test_env-DbLaws.get_put k v j (b d);
  get_delete = λ k j b d. test_env-DbLaws.get_delete k j (b d);
}

abbrev no_batches : Storage test_env batches
no_batches = record { batch = none; db = [] }

abbrev updates : List Update
updates = put (codes "k") (codes "v") ∷ delete (codes "k") ∷ put (codes "k") (codes "w") ∷ []

write_batch_lem_example :
    (i : ℕ) × (s₀ s₁ s₂ s₃ : Storage test_env batches) × (new_write_batch test_env batches
        no_batches
      ≡ done (i, s₀))
    × (batch_updates test_env batches i updates s₀ ≡ done (true, s₁))
    × (s₁.db ≡ no_batches.db)
    × (write_batch test_env batches i s₁ ≡ done (true, s₂))
    × ((j : Bytes)
        → test_env.db_get j s₂.db ≡ status_after updates j (test_env.db_get j no_batches.db))
    × (write_batch test_env batches i s₂ ≡ done (true, s₃))
    × (s₃.db ≡ s₂.db)
write_batch_lem_example =
    write_batch_lem test_env batches batches-BatchLaws updates no_batches (inl refl)

abbrev all_taken : DomianBatchVector (Map Bytes → Map Bytes)
all_taken = replicate 100 (some (λ d. d))

abbrev full_batches : Storage test_env batches
full_batches = record { batch = some all_taken; db = [] }

new_write_batch_full_example :
    (new_write_batch test_env batches full_batches ≡ fault out_of_range)
    × (batch_put test_env batches 100 [] [] full_batches ≡ fault out_of_range)
    × (batch_delete test_env batches 100 [] full_batches ≡ fault out_of_range)
    × (batch_clear test_env batches 100 full_batches ≡ fault out_of_range)
    × (write_batch test_env batches 100 full_batches ≡ fault out_of_range)
unfolding first_free
new_write_batch_full_example =
    new_write_batch_full test_env batches all_taken full_batches 100 [] [] refl refl refl
      (omega arith) (omega arith)
