-- ===== src/Glue/Node/Sweep.antt =====
-- The loops over a map: one whose body does nothing visits every entry and ends, and one whose body
-- erases the entry that it is at goes on from an erased element.
use crosschain_agent.Prelude.{
  All, Bytes, [], ap, append_assoc, arith, bytes_eq_refl, bytes_lt, bytes_lt_asym, bytes_lt_irrefl,
  false, length, refl, some, suc, sym, true, zero, ℕ, ◌++◌, ◌∙◌, ◌∷◌, ◌≡◌, ◌≤◌,
}
use crosschain_agent.Map.{Map, upper_bound, find, begin, has}
use crosschain_agent.Env.{Env}
use crosschain_agent.Map.Order.{IsSorted}
use crosschain_agent.Glue.Node.{Table, CrossTx, Agent, sweep, range_for, advance}
use crosschain_agent.General.{CrossTx}
use crosschain_agent.Exec.{Exec, dangling, done, fault, ◌>>=◌}

-- Every key of `m` is greater than `k`, and is not `k`.
abbrev Above {ℓ} : {V : Type ℓ} → Bytes → Map V → Type 0
Above k [] = Unit
Above k ((j, v) ∷ m) = (bytes_lt k j ≡ true) × Above k m

module _ {ℓ} {V : Type ℓ} where
  above_front :
      (front : Map V) (k : Bytes) (v : V) (rest : Map V)
      → IsSorted (front ++ (k, v) ∷ rest)
      → upper_bound k (front ++ (k, v) ∷ rest) ≡ begin rest
  unfolding upper_bound begin
  above_front [] k v [] h = rw (bytes_lt_irrefl k)
  above_front [] k v ((j, w) ∷ rest) h = rw (bytes_lt_irrefl k, h.0.0)
  above_front ((j, w) ∷ front) k v rest h =
      rw (not_lt j front k v rest h.0) (above_front front k v rest h.1)
    where
      not_lt :
          (j : Bytes) (front : Map V) (k : Bytes) (v : V) (rest : Map V)
          → Above j (front ++ (k, v) ∷ rest)
          → bytes_lt k j ≡ false
      not_lt j [] k v rest h = bytes_lt_asym j k h.0
      not_lt j ((i, w) ∷ front) k v rest h = not_lt j front k v rest h.1

  has_entry :
      (front : Map V) (k : Bytes) (v : V) (rest : Map V) → has k (front ++ (k, v) ∷ rest) ≡ true
  unfolding find
  has_entry [] k v rest = rw (bytes_eq_refl k)
  has_entry ((j, w) ∷ front) k v rest = ground (arith, has_entry front k v rest)

advance_entry :
    (front : Map CrossTx) (k : Bytes) (c : CrossTx) (rest : Map CrossTx)
    → IsSorted (front ++ (k, c) ∷ rest)
    → advance k (front ++ (k, c) ∷ rest) ≡ some (begin rest)
unfolding advance
advance_entry front k c rest h =
    rw (has_entry front k c rest) (ap some (above_front front k c rest h))

module _ (env : Env) (t : Table) (body : Bytes → CrossTx → Exec (Agent env) Unit)
    (s : Agent env) where
  -- The loop from the entries `rest` on, if the body does nothing at each of them.
  sweep_idle :
      (front rest : Map CrossTx) (fuel : ℕ)
      → s.tables t ≡ front ++ rest
      → IsSorted (front ++ rest)
      → length rest ≤ fuel
      → All (λ e. body e.0 e.1 s ≡ done (tt, s)) rest
      → sweep env t body fuel (begin rest) s ≡ done (tt, s)
  unfolding sweep begin ◌>>=◌
  sweep_idle front [] fuel e h f idle = refl
  sweep_idle front ((k, c) ∷ rest) zero e h f idle = absurd (omega arith)
  sweep_idle front ((k, c) ∷ rest) (suc fuel) e h f idle = rw idle.0 (
      rw (e, advance_entry front k c rest h)
        (sweep_idle (front ++ (k, c) ∷ []) rest fuel (e ∙ sym (append_assoc front _ rest))
          (rw append_assoc h) (omega arith) idle.1))

  -- If the body does nothing at each entry of a sorted map, then the loop visits all of them, ends, and
  -- has changed nothing.
  pub range_for_idle :
      IsSorted (s.tables t)
      → All (λ e. body e.0 e.1 s ≡ done (tt, s)) (s.tables t)
      → range_for env t body s ≡ done (tt, s)
  unfolding range_for ◌>>=◌
  range_for_idle h idle = sweep_idle [] (s.tables t) (length (s.tables t)) refl h (omega arith) idle

  -- If the body erases the first entry, then the loop goes on from an element that is gone.
  pub range_for_dangling :
      (k : Bytes) (c : CrossTx) (rest : Map CrossTx) (s' : Agent env)
      → s.tables t ≡ (k, c) ∷ rest
      → body k c s ≡ done (tt, s')
      → has k (s'.tables t) ≡ false
      → range_for env t body s ≡ fault dangling
  unfolding range_for sweep advance begin ◌>>=◌
  range_for_dangling k c rest s' e step gone = rw e (rw step (rw gone))
