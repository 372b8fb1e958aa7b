-- ===== src/Glue/Recovery/Restart.antt =====
-- Both handles' Initialize, and HandleManager::Initialize, on the store that a process has left.
use crosschain_agent.Glue.Layer1ToLayer2
use crosschain_agent.Glue.Layer2ToLayer1
use crosschain_agent.Prelude.{
  Bytes, Bool, ◌≡◌, ◌||◌, false, ◌&&◌, ◌∙◌, Bool-cases, inl, inr, subst, true, refl, [],
}
use crosschain_agent.Env.{Env}
use crosschain_agent.Glue.Node.{
  Table, Agent, same, prefix, db_key, l1_reply_ack, l2_reply_ack, l1_send_ack, l2_send_ack,
  l1_send_tx, l2_start_tx, on_world, l2_send_tx,
}
use crosschain_agent.Glue.Recovery.Scan.{SeekLaws, IsLegible}
use crosschain_agent.Map.{has, find}
use crosschain_agent.Exec.{Exec, done, ◌>>=◌, zoom}
use crosschain_agent.Glue.Recovery.Load.{
  Gains, IsLoader, load_prefix_lem, IsTable, load1_send_tx-IsLoader, load2_tx-IsLoader,
  load1_ack-IsLoader, load2_ack-IsLoader, empty-IsTable,
}
use crosschain_agent.Glue.Consistency.{is_ok, IsConsistent}
use crosschain_agent.Glue.Node.Keys.{same_sound}
use crosschain_agent.Glue.HandleManager.{initialize, check_layer2_balance, check_layer1_balance}

-- The maps for which `loaded` holds stand for the records of the store `d`, and the others are empty.
record Restored (env : Env) (d : env.Db) (loaded : Table → Bool) (s : Agent env) : Type 0 where
  same_db : s.db ≡ d
  full :
      (t : Table) (k : Bytes) → has k (s.tables t) ≡ loaded t && is_ok (env.db_get (db_key t k) d)
  good : (t : Table) → IsTable t (s.tables t)

abbrev with_table : Table → (Table → Bool) → Table → Bool
with_table t loaded u = same t u || loaded u

or_false : (b : Bool) → b || false ≡ b
or_false true = refl
or_false false = refl

Gains-Restored :
    (env : Env) (d : env.Db) (loaded : Table → Bool) (t : Table) (s s' : Agent env)
    → loaded t ≡ false
    → Restored env d loaded s
    → Gains env t (λ k. is_ok (env.db_get (db_key t k) s.db)) s s'
    → Restored env d (with_table t loaded) s'
Gains-Restored env d loaded t s s' fresh h gains = record {
  same_db = gains.same_db ∙ h.same_db;
  full = λ u k. elim (Bool-cases (same t u)) [
    | inl e ↦ rw e (
        subst (λ u. has k (s'.tables u) ≡ is_ok (env.db_get (db_key u k) d)) (same_sound t u e)
          (rw h.same_db at (
            rw (h.full t k, fresh, or_false (is_ok (env.db_get (db_key t k) s.db))) at
              (gains.gained k))))
    | inr e ↦ rw (e, gains.others u e) (h.full u k)
  ];
  good = λ u. elim (Bool-cases (same t u)) [
    | inl e ↦ subst (λ u. IsTable u (s'.tables u)) (same_sound t u e) (gains.still (h.good t))
    | inr e ↦ rw (gains.others u e) (h.good u)
  ];
}

module _ (env : Env) (d : env.Db) (laws : (t : Table) → SeekLaws env (prefix t) d)
    (legible : IsLegible env d) where
  -- One more map is filled.
  restore_step :
      (loaded : Table → Bool) (t : Table) (load : Bytes → Exec (Agent env) Unit) (s : Agent env)
      → IsLoader env t load
      → loaded t ≡ false
      → Restored env d loaded s
      → (s' : Agent env) × (Layer1ToLayer2.Start.load_prefix env t load s ≡ done (tt, s'))
        × (Layer2ToLayer1.Start.load_prefix env t load s ≡ done (tt, s'))
        × Restored env d (with_table t loaded) s'
  restore_step loaded t load s loader fresh h =
      let (s', run₁, run₂, gains) =
        load_prefix_lem env t load loader s (rw h.same_db (laws t)) (rw h.same_db legible) in
      (s', run₁, run₂, Gains-Restored env d loaded t s s' fresh h gains)

  -- Three maps for layer 1, as Layer1ToLayer2Handle fills them, and then four for layer 2.
  abbrev after_layer1 : Table → Bool
  after_layer1 =
      with_table l1_reply_ack (with_table l1_send_ack (with_table l1_send_tx (λ t. false)))

  abbrev after_layer2 : Table → Bool
  after_layer2 =
      with_table l2_reply_ack
        (with_table l2_send_ack (with_table l2_send_tx (with_table l2_start_tx after_layer1)))

  layer1_restores :
      (s : Agent env)
      → Restored env d (λ t. false) s
      → (s' : Agent env) × (Layer1ToLayer2.Start.initialize env s ≡ done (true, s'))
        × Restored env d after_layer1 s'
  unfolding Layer1ToLayer2.Start.initialize ◌>>=◌
  layer1_restores s h =
      let (s₁, run₁, _, h₁) =
        restore_step (λ t. false) l1_send_tx (Layer1ToLayer2.Start.load_send_tx env) s
          (load1_send_tx-IsLoader env) refl h in
      let (s₂, run₂, _, h₂) =
        restore_step (with_table l1_send_tx (λ t. false)) l1_send_ack
          (Layer1ToLayer2.Start.load_ack env l1_send_ack) s₁ (load1_ack-IsLoader env l1_send_ack)
          refl h₁ in
      let (s₃, run₃, _, h₃) =
        restore_step (with_table l1_send_ack (with_table l1_send_tx (λ t. false))) l1_reply_ack
          (Layer1ToLayer2.Start.load_ack env l1_reply_ack) s₂ (load1_ack-IsLoader env l1_reply_ack)
          refl h₂ in
      (s₃, rw run₁ (rw run₂ (rw run₃ refl)), h₃)

  layer2_restores :
      (s : Agent env)
      → Restored env d after_layer1 s
      → (s' : Agent env) × (Layer2ToLayer1.Start.initialize env s ≡ done (true, s'))
        × Restored env d after_layer2 s'
  unfolding Layer2ToLayer1.Start.initialize ◌>>=◌
  layer2_restores s h =
      let (s₁, _, run₁, h₁) =
        restore_step after_layer1 l2_start_tx (Layer2ToLayer1.Start.load_tx env l2_start_tx) s
          (load2_tx-IsLoader env l2_start_tx refl) refl h in
      let (s₂, _, run₂, h₂) =
        restore_step (with_table l2_start_tx after_layer1) l2_send_tx
          (Layer2ToLayer1.Start.load_tx env l2_send_tx) s₁ (load2_tx-IsLoader env l2_send_tx refl)
          refl h₁ in
      let (s₃, _, run₃, h₃) =
        restore_step (with_table l2_send_tx (with_table l2_start_tx after_layer1)) l2_send_ack
          (Layer2ToLayer1.Start.load_ack env l2_send_ack) s₂ (load2_ack-IsLoader env l2_send_ack)
          refl h₂ in
      let (s₄, _, run₄, h₄) =
        restore_step
          (with_table l2_send_ack (with_table l2_send_tx (with_table l2_start_tx after_layer1)))
          l2_reply_ack (Layer2ToLayer1.Start.load_ack env l2_reply_ack) s₃
          (load2_ack-IsLoader env l2_reply_ack) refl h₃ in
      (s₄, rw run₁ (rw run₂ (rw run₃ (rw run₄ refl))), h₄)

  all_loaded : (t : Table) → after_layer2 t ≡ true
  all_loaded l1_send_tx = refl
  all_loaded l1_send_ack = refl
  all_loaded l1_reply_ack = refl
  all_loaded l2_start_tx = refl
  all_loaded l2_send_tx = refl
  all_loaded l2_send_ack = refl
  all_loaded l2_reply_ack = refl

  Restored-IsConsistent : (s : Agent env) → Restored env d after_layer2 s → IsConsistent env s
  Restored-IsConsistent s h = record {
    keys = λ t k. rw (h.full t k, all_loaded t, h.same_db) refl;
    sorted = λ t. (h.good t).sorted;
    named = λ t. (h.good t).named;
    deadlines = λ t. (h.good t).deadlines;
  }

-- A new process whose accounts can pay, on a legible store: HandleManager::Initialize succeeds and ends
-- with a consistent state on the same store, so that each map has an entry for exactly the transfers with
-- a record under its prefix, and each acknowledgement has a deadline again.
pub initialize-IsConsistent :
    (env : Env) (d : env.Db) (w w₁ w₂ : env.World)
    → ((t : Table) → SeekLaws env (prefix t) d)
    → IsLegible env d
    → check_layer2_balance env w ≡ done (true, w₁)
    → check_layer1_balance env w₁ ≡ done (true, w₂)
    → (s' : Agent env) × (initialize env (record { world = w; db = d; tables = λ t. [] })
        ≡ done (true, s'))
      × (s'.db ≡ d)
      × IsConsistent env s'
unfolding initialize on_world zoom find ◌>>=◌
initialize-IsConsistent env d w w₁ w₂ laws legible paid₂ paid₁ =
    let empty : Restored env d (λ t. false) (record { world = w₂; db = d; tables = λ t. [] }) =
      record { same_db = refl; full = λ t k. refl; good = λ t. empty-IsTable t } in
    let (s₁, run₁, h₁) = layer1_restores env d laws legible _ empty in
    let (s₂, run₂, h₂) = layer2_restores env d laws legible s₁ h₁ in
    (
      s₂,
      rw paid₂ (rw paid₁ (rw run₁ (rw run₂ refl))),
      h₂.same_db,
      Restored-IsConsistent env d laws legible s₂ h₂,
    )
