-- ===== src/Glue/Recovery/Scan.antt =====
-- What a scan of the store for the prefix of a map brings to light: the transfers that have a record
-- under that prefix.
use crosschain_agent.Prelude.{
  Bytes, ◌≡◌, Bool, some, false, true, bytes_eq, ◌||◌, arith, Option-cases, ◌∷◌, [], All,
  starts_with, Bool-cases, inl, refl, bytes_lt, ◌&&◌, bytes_eq_sound, inr, All-map, false≢true,
  starts_with_split, sym, subst, ◌∙◌, bytes_eq_append, bytes_lt_prefix, starts_with_between,
}
use crosschain_agent.Database.Proxy
use crosschain_agent.Env.{Env, GetStatus}
use crosschain_agent.Map.{Map, find, emplace, has, insert}
use crosschain_agent.Glue.Node.{Table, db_key, prefix}
use crosschain_agent.Database.RocksDb.{collect}
use crosschain_agent.Map.Order.{IsSorted, Above}
use crosschain_agent.Glue.Consistency.{is_ok}
use crosschain_agent.Exec.{◌>>=◌, done}
use crosschain_agent.Glue.Node.Keys.{starts_with-db_key, same_refl}

-- What the agent relies on of RocksDB's iterators: they visit, in the order of the keys, every key from
-- the given one on, each with the value that it holds.
pub record SeekLaws (env : Env) (p : Bytes) (d : env.Db) : Type 0 where
  pub entries : Map Bytes
  pub seek : env.db_seek p d ≡ some entries
  pub ordered : IsSorted entries
  pub from : All (λ e. bytes_lt e.0 p ≡ false) entries
  pub held : All (λ e. env.db_get e.0 d ≡ GetStatus.ok e.1) entries
  pub complete : (k : Bytes) → bytes_lt k p ≡ false → has k entries ≡ is_ok (env.db_get k d)

-- The identifier in a record.
abbrev pub id_of : Env → Bytes → Bytes
id_of env v = (env.parse v).1.crosstxid

-- Every record under the key of a map and a transfer can be parsed and has that transfer's identifier.
abbrev pub IsLegible : (env : Env) → env.Db → Type 0
IsLegible env d =
    (t : Table) (k v : Bytes)
    → env.db_get (db_key t k) d ≡ GetStatus.ok v
    → ((env.parse v).0 ≡ true) × (id_of env v ≡ k)

-- Some record of a set has the identifier `k`.
abbrev pub names_one : Env → Bytes → Map (Unit {0}) → Bool
names_one env k [] = false
names_one env k ((v, _) ∷ records) = bytes_eq (id_of env v) k || names_one env k records

-- Some entry of a scan, before the first that has not the prefix, has the identifier `k`.
abbrev scan_names : Env → Bytes → Bytes → Map Bytes → Bool
scan_names env p k [] = false
scan_names env p k ((j, v) ∷ m) =
    starts_with p j && (bytes_eq (id_of env v) k || scan_names env p k m)

module _ (env : Env) where
  names_one-insert :
      (k v : Bytes) (m : Map (Unit {0}))
      → names_one env k (insert v tt m) ≡ bytes_eq (id_of env v) k || names_one env k m
  unfolding insert
  names_one-insert k v [] = ground arith
  names_one-insert k v ((w, u) ∷ m) = ground (arith, names_one-insert k v m)

  names_one_of_has :
      (k v : Bytes) (m : Map (Unit {0}))
      → has v m ≡ true
      → bytes_eq (id_of env v) k ≡ true
      → names_one env k m ≡ true
  unfolding find
  names_one_of_has k v [] h e = ground arith
  names_one_of_has k v ((w, u) ∷ m) h e = elim (Bool-cases (bytes_eq w v)) [
    | inl same ↦ rw (bytes_eq_sound w v same, e) refl
    | inr other ↦ ground (arith, names_one_of_has k v m)
  ]

  names_one-emplace :
      (k v : Bytes) (m : Map (Unit {0}))
      → names_one env k (emplace v tt m) ≡ bytes_eq (id_of env v) k || names_one env k m
  unfolding emplace insert
  names_one-emplace k v m = elim (Option-cases (find v m)) [
    | inl e ↦ rw (e, emplace) (names_one-insert k v m)
    | inr (w, e) ↦
        rw (e, emplace)
          (elim (Bool-cases (bytes_eq (id_of env v) k)) [
            | inl i ↦ rw i (names_one_of_has k v m (rw e refl) i)
            | inr i ↦ rw i refl
          ])
  ]

  names_one-collect :
      (p k : Bytes) (m : Map Bytes) (values : Map (Unit {0}))
      → names_one env k (collect p m values) ≡ scan_names env p k m || names_one env k values
  unfolding collect
  names_one-collect p k [] values = refl
  names_one-collect p k ((j, v) ∷ m) values =
      ground (arith, names_one-collect p k m (emplace v tt values), names_one-emplace k v values)

-- An entry under a key of the map `t` can be parsed and has the identifier of that key.
abbrev LegibleEntry : (env : Env) → Table → Bytes × Bytes → Type 0
LegibleEntry env t e =
    (k : Bytes) → e.0 ≡ db_key t k → ((env.parse e.1).0 ≡ true) × (id_of env e.1 ≡ k)

absent_after :
    {V : Type 0} (j key : Bytes) (m : Map V)
    → Above j m
    → bytes_lt j key ≡ false
    → has key m ≡ false
unfolding find
absent_after j key [] a h = refl
absent_after j key ((i, v) ∷ m) a h = elim (Bool-cases (bytes_eq i key)) [
  | inl e ↦
      absurd (false≢true (sym h ∙ subst (λ x. bytes_lt j x ≡ true) (bytes_eq_sound i key e) a.0))
  | inr e ↦ rw e (absent_after j key m a.1 h)
]

module _ (env : Env) (t : Table) (k : Bytes) where
  -- An entry without the prefix ends the scan, and no key of the map comes after it.
  scan_end :
      (j : Bytes) (v : Bytes) (m : Map Bytes)
      → Above j m
      → bytes_lt j (prefix t) ≡ false
      → starts_with (prefix t) j ≡ false
      → has (db_key t k) ((j, v) ∷ m) ≡ false
  unfolding find
  scan_end j v m a from apart =
      let here : starts_with (prefix t) (db_key t k) ≡ true =
        starts_with-db_key t t k ∙ same_refl t in
      elim (Bool-cases (bytes_eq j (db_key t k))) [
        | inl e ↦ absurd (false≢true (sym apart ∙ rw (bytes_eq_sound j (db_key t k) e) here))
        | inr e ↦ rw e (elim (Bool-cases (bytes_lt j (db_key t k))) [
          | inl lt ↦
              absurd (
                false≢true (sym apart ∙ starts_with_between (prefix t) j (db_key t k) from lt here))
          | inr ge ↦ absent_after j (db_key t k) m a ge
        ])
      ]

  legible_id :
      (j v : Bytes)
      → LegibleEntry env t (j, v)
      → starts_with (prefix t) j ≡ true
      → bytes_eq (id_of env v) k ≡ bytes_eq j (db_key t k)
  legible_id j v legible h =
      let (rest, e) = starts_with_split (prefix t) j h in
      rw ((legible rest e).1, e, bytes_eq_append (prefix t) rest k) refl

  -- The scan names a transfer exactly if there is an entry under its key.
  scan_names-has :
      (m : Map Bytes)
      → IsSorted m
      → All (λ e. bytes_lt e.0 (prefix t) ≡ false) m
      → All (LegibleEntry env t) m
      → scan_names env (prefix t) k m ≡ has (db_key t k) m
  unfolding find
  scan_names-has [] sorted from legible = refl
  scan_names-has ((j, v) ∷ m) sorted from legible = elim (Bool-cases (starts_with (prefix t) j)) [
    | inl h ↦
        rw (h, legible_id j v legible.0 h, scan_names-has m sorted.1 from.1 legible.1)
          (ground arith)
    | inr h ↦ rw h (sym (scan_end j v m sorted.0 from.0 h))
  ]

legible_entries :
    (env : Env) (t : Table) (d : env.Db)
    → IsLegible env d
    → (m : Map Bytes) → All (λ e. env.db_get e.0 d ≡ GetStatus.ok e.1) m
    → All (LegibleEntry env t) m
legible_entries env t d legible m held =
    All-map
      (λ e h k is_key. legible t k e.1 (subst (λ j. env.db_get j d ≡ GetStatus.ok e.1) is_key h)) m
      held

-- A record of a set can be parsed.
abbrev pub Parses : (env : Env) → Bytes × (Unit {0}) → Type 0
Parses env e = (env.parse e.0).0 ≡ true

Parses-insert :
    (env : Env) (v : Bytes) (m : Map (Unit {0}))
    → (env.parse v).0 ≡ true
    → All (Parses env) m
    → All (Parses env) (insert v tt m)
unfolding insert
Parses-insert env v [] h a = (h, tt)
Parses-insert env v ((w, u) ∷ m) h a = ground (arith, Parses-insert env v m h a.1)

Parses-emplace :
    (env : Env) (v : Bytes) (m : Map (Unit {0}))
    → (env.parse v).0 ≡ true
    → All (Parses env) m
    → All (Parses env) (emplace v tt m)
unfolding emplace
Parses-emplace env v m h a = elim (Option-cases (find v m)) [
  | inl e ↦ rw (e, emplace) (Parses-insert env v m h a)
  | inr (w, e) ↦ rw (e, emplace) a
]

Parses-collect :
    (env : Env) (t : Table) (m : Map Bytes) (values : Map (Unit {0}))
    → All (LegibleEntry env t) m
    → All (Parses env) values
    → All (Parses env) (collect (prefix t) m values)
unfolding collect
Parses-collect env t [] values legible a = a
Parses-collect env t ((j, v) ∷ m) values legible a = elim (Bool-cases (starts_with (prefix t) j)) [
  | inl h ↦
      let (rest, e) = starts_with_split (prefix t) j h in
      rw h (
        Parses-collect env t m (emplace v tt values) legible.1
          (Parses-emplace env v values (legible.0 rest e).0 a))
  | inr h ↦ rw h a
]

-- GetAllValueByPrefix through the proxy gives, for the prefix of a map and a legible store, a set of
-- records that name exactly the transfers with a record under that prefix; all of them can be parsed.
pub get_all_value_by_prefix_lem :
    (env : Env) (t : Table) (d : env.Db)
    → SeekLaws env (prefix t) d
    → IsLegible env d
    → (records : Map (Unit {0})) × (Proxy.get_all_value_by_prefix env (prefix t) d
        ≡ done (some records, d))
      × All (Parses env) records
      × ((k : Bytes) → names_one env k records ≡ is_ok (env.db_get (db_key t k) d))
unfolding Proxy.get_all_value_by_prefix ◌>>=◌
get_all_value_by_prefix_lem env t d laws legible = (
  collect (prefix t) laws.entries [],
  rw laws.seek refl,
  Parses-collect env t laws.entries [] (legible_entries env t d legible laws.entries laws.held) tt,
  λ k.
      rw
        (
          names_one-collect env (prefix t) k laws.entries [],
          scan_names-has env t k laws.entries laws.ordered laws.from
              (legible_entries env t d legible laws.entries laws.held),
        )
        (ground (arith, laws.complete (db_key t k) (bytes_lt_prefix (prefix t) k))),
)
