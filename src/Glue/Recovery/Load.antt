-- ===== src/Glue/Recovery/Load.antt =====
-- How the loops of Initialize fill one map from a set of records.
use crosschain_agent.Glue.Layer1ToLayer2
use crosschain_agent.Glue.Layer2ToLayer1
use mathlib.Core.Path.{fun_ext}
use crosschain_agent.Prelude.{
  Bytes, [], Bool, ◌≡◌, some, true, false, bytes_eq, ◌||◌, arith, refl, bytes_eq_iff, ◌∙◌, All, ◌∷◌,
  subst,
}
use crosschain_agent.Glue.Node.{
  Table, set_table, on_table, Agent, same, l1_send_tx, on_world, on_db, prefix, db_key,
}
use crosschain_agent.Map.{find, Map, emplace, has}
use crosschain_agent.Env.{Env, high_resolution}
use crosschain_agent.General.{CrossTx, make_cross_tx}
use crosschain_agent.Exec.{Exec, modify, done, zoom, state, ◌>>=◌}
use crosschain_agent.Map.Order.{IsSorted, emplace-IsSorted}
use crosschain_agent.Glue.Node.Stable.{dated, set_deadline, has_deadline}
use crosschain_agent.Glue.Recovery.Scan.{
  id_of, Parses, SeekLaws, names_one, IsLegible, get_all_value_by_prefix_lem,
}
use crosschain_agent.Glue.Node.Keys.{same_refl}
use crosschain_agent.Map.Laws.{find-emplace, has-emplace}
use crosschain_agent.Glue.Consistency.{is_ok}

-- What a map has to be like, whatever is in the store.
pub record IsTable (t : Table) (m : Map CrossTx) : Type 0 where
  pub sorted : IsSorted m
  pub named : (k : Bytes) (c : CrossTx) → find k m ≡ some c → c.cross_tx_id ≡ k
  pub deadlines : (k : Bytes) (c : CrossTx) → find k m ≡ some c → dated t c ≡ true

pub empty-IsTable : (t : Table) → IsTable t []
unfolding find
empty-IsTable t = record { sorted = tt; named = λ k c e. cc; deadlines = λ k c e. cc }

emplace-IsTable :
    (t : Table) (c : CrossTx) (m : Map CrossTx)
    → dated t c ≡ true
    → IsTable t m
    → IsTable t (emplace c.cross_tx_id c m)
emplace-IsTable t c m ready h = record {
  sorted = emplace-IsSorted c.cross_tx_id c m h.sorted;
  named = λ k d. rw find-emplace (ground (arith, h.named k d, bytes_eq_iff c.cross_tx_id k));
  deadlines =
      λ k d. rw find-emplace (ground (arith, h.deadlines k d, bytes_eq_iff c.cross_tx_id k));
}

-- From `s` to `s'` the map `t` gains the transfers for which `new` holds, and the store and the other
-- maps stay.
pub record Gains (env : Env) (t : Table) (new : Bytes → Bool) (s s' : Agent env) : Type 0 where
  pub same_db : s'.db ≡ s.db
  pub others : (u : Table) → same t u ≡ false → s'.tables u ≡ s.tables u
  pub gained : (k : Bytes) → has k (s'.tables t) ≡ new k || has k (s.tables t)
  pub still : IsTable t (s.tables t) → IsTable t (s'.tables t)

-- A loader puts the transfer of one record into the map.
pub record IsLoader (env : Env) (t : Table) (load : Bytes → Exec (Agent env) Unit) : Type 0 where
  pub loads :
      (v : Bytes) (s : Agent env)
      → (env.parse v).0 ≡ true
      → (s' : Agent env) × (load v s ≡ done (tt, s')) × Gains env t (bytes_eq (id_of env v)) s s'

emplaced-Gains :
    (env : Env) (t : Table) (c : CrossTx) (w : env.World) (s : Agent env)
    → dated t c ≡ true
    → Gains env t (bytes_eq c.cross_tx_id) s (record s {
      world = w;
      tables = set_table t (emplace c.cross_tx_id c (s.tables t)) s.tables;
    })
unfolding set_table
emplaced-Gains env t c w s ready = record {
  same_db = refl;
  others = λ u e. rw e refl;
  gained = λ k. rw (same_refl t) (has-emplace c.cross_tx_id k c (s.tables t));
  still = λ h. rw (same_refl t) (emplace-IsTable t c (s.tables t) ready h);
}

module _ (env : Env) where
  pub load1_send_tx-IsLoader : IsLoader env l1_send_tx (Layer1ToLayer2.Start.load_send_tx env)
  unfolding Layer1ToLayer2.Start.load_send_tx on_table modify make_cross_tx
  load1_send_tx-IsLoader = record {
    loads = λ v s parses. (
      _,
      rw parses refl,
      emplaced-Gains env l1_send_tx (make_cross_tx env (env.parse v).1) s.world s refl,
    );
  }

  pub load2_tx-IsLoader :
      (t : Table) → has_deadline t ≡ false → IsLoader env t (Layer2ToLayer1.Start.load_tx env t)
  unfolding Layer2ToLayer1.Start.load_tx on_table modify make_cross_tx
  load2_tx-IsLoader t undated = record {
    loads = λ v s parses. (
      _,
      rw parses refl,
      emplaced-Gains env t (make_cross_tx env (env.parse v).1) s.world s (rw undated refl),
    );
  }

  -- The entry of an acknowledgement that is read from the store at a given time.
  abbrev loaded_ack : Bytes → Agent env → CrossTx
  loaded_ack v s = set_deadline (env.clock s.world).0 (make_cross_tx env (env.parse v).1)

  loaded_ack-dated : (t : Table) (v : Bytes) (s : Agent env) → dated t (loaded_ack v s) ≡ true
  loaded_ack-dated t v s = ground arith

  pub load1_ack-IsLoader : (t : Table) → IsLoader env t (Layer1ToLayer2.Start.load_ack env t)
  unfolding Layer1ToLayer2.Start.load_ack on_table modify make_cross_tx on_world zoom
      high_resolution state ◌>>=◌
  load1_ack-IsLoader t = record {
    loads = λ v s parses. (
      _,
      rw parses refl,
      emplaced-Gains env t (loaded_ack v s) (env.clock s.world).1 s (loaded_ack-dated t v s),
    );
  }

  pub load2_ack-IsLoader : (t : Table) → IsLoader env t (Layer2ToLayer1.Start.load_ack env t)
  unfolding Layer2ToLayer1.Start.load_ack on_table modify make_cross_tx on_world zoom
      high_resolution state ◌>>=◌
  load2_ack-IsLoader t = record {
    loads = λ v s parses. (
      _,
      rw parses refl,
      emplaced-Gains env t (loaded_ack v s) (env.clock s.world).1 s (loaded_ack-dated t v s),
    );
  }

Gains-none : (env : Env) (t : Table) (s : Agent env) → Gains env t (λ k. false) s s
Gains-none env t s = record {
  same_db = refl;
  others = λ u e. refl;
  gained = λ k. refl;
  still = λ h. h;
}

Gains-trans :
    (env : Env) (t : Table) (f g : Bytes → Bool) (s₁ s₂ s₃ : Agent env)
    → Gains env t f s₁ s₂
    → Gains env t g s₂ s₃
    → Gains env t (λ k. f k || g k) s₁ s₃
Gains-trans env t f g s₁ s₂ s₃ a b = record {
  same_db = b.same_db ∙ a.same_db;
  others = λ u e. b.others u e ∙ a.others u e;
  gained = λ k. ground (arith, a.gained k, b.gained k);
  still = λ h. b.still (a.still h);
}

module _ (env : Env) (t : Table) (load : Bytes → Exec (Agent env) Unit)
    (loader : IsLoader env t load) where
  -- The loop over a set whose records can be parsed adds the transfers that they name, and ends.
  load_all_lem :
      (records : Map (Unit {0})) (s : Agent env)
      → All (Parses env) records
      → (s' : Agent env) × (Layer1ToLayer2.Start.load_all env load records s ≡ done (tt, s'))
        × (Layer2ToLayer1.Start.load_all env load records s ≡ done (tt, s'))
        × Gains env t (λ k. names_one env k records) s s'
  unfolding Layer1ToLayer2.Start.load_all Layer2ToLayer1.Start.load_all ◌>>=◌
  load_all_lem [] s parses = (s, refl, refl, Gains-none env t s)
  load_all_lem ((v, u) ∷ records) s parses =
      let (s₁, run₁, gains₁) = loader.loads v s parses.0 in
      let (s₂, run₂, run₃, gains₂) = load_all_lem records s₁ parses.1 in
      (
        s₂,
        rw run₁ run₂,
        rw run₁ run₃,
        Gains-trans env t (bytes_eq (id_of env v)) (λ k. names_one env k records) s s₁ s₂ gains₁
            gains₂,
      )

  -- From a legible store, a map gains exactly the transfers with a record under its prefix.
  pub load_prefix_lem :
      (s : Agent env)
      → SeekLaws env (prefix t) s.db
      → IsLegible env s.db
      → (s' : Agent env) × (Layer1ToLayer2.Start.load_prefix env t load s ≡ done (tt, s'))
        × (Layer2ToLayer1.Start.load_prefix env t load s ≡ done (tt, s'))
        × Gains env t (λ k. is_ok (env.db_get (db_key t k) s.db)) s s'
  unfolding Layer1ToLayer2.Start.load_prefix Layer2ToLayer1.Start.load_prefix
      Layer1ToLayer2.Start.load_found Layer2ToLayer1.Start.load_found on_db zoom ◌>>=◌
  load_prefix_lem s laws legible =
      let (records, found, parses, names) = get_all_value_by_prefix_lem env t s.db laws legible in
      let (s', run₁, run₂, gains) = load_all_lem records s parses in
      (s', rw found run₁, rw found run₂, subst (λ f. Gains env t f s s') (fun_ext names) gains)
