-- ===== src/Tests/Restart.antt =====
-- A process that stops after a message, and its successor on the same store.
use crosschain_agent.Glue.HandleManager.{initialize, run, enough, min_balance}
use crosschain_agent.Exec.{done, fault}
use crosschain_agent.Prelude.{
  Bytes, ℤ, ◌≡◌, length, ℕ, ◌∷◌, pos, ◌++◌, [], if◌then◌else◌, bytes_lt, codes, negsuc, suc, false,
  some, zero, refl, Bool-cases, true, bytes_eq, inl, bytes_eq_sound, bytes_eq_refl, inr, arith,
  Option-cases, Option, is_some, none,
}
use crosschain_agent.Messages.{CrossTxInfo}
use crosschain_agent.Map.{Map, find, has}
use crosschain_agent.Env.{Env, not_found, ok}
use crosschain_agent.Database.Contract.{DbLaws}
use crosschain_agent.Glue.Node.{Agent, Table, prefix, db_key, l1_send_ack}
use crosschain_agent.Tests.Network.{
  test_env, test_env-DbLaws, settings1, settings2, stored, transfer,
}
use crosschain_agent.Glue.Consistency.{IsConsistent, is_ok}
use crosschain_agent.Glue.HandleManager.{run}
use crosschain_agent.Tests.Loops.{two_events}
use crosschain_agent.General.Address.{}
use crosschain_agent.Glue.Recovery.Scan.{SeekLaws}
use crosschain_agent.Glue.Recovery.Crash.{restart_lem}
use crosschain_agent.WebClient.{get_balance}

-- Numbers and texts as protobuf could write them: a text goes after its length.
abbrev write_int : ℤ → Bytes → Bytes
write_int (pos n) rest = 0 ∷ n ∷ rest
write_int (negsuc n) rest = 1 ∷ n ∷ rest

abbrev read_int : Bytes → ℤ × Bytes
read_int (zero ∷ n ∷ rest) = (pos n, rest)
read_int (suc _ ∷ n ∷ rest) = (negsuc n, rest)
read_int s = (pos 0, s)

read-write_int : (z : ℤ) (rest : Bytes) → read_int (write_int z rest) ≡ (z, rest)
read-write_int (pos n) rest = refl
read-write_int (negsuc n) rest = refl

abbrev write_text : Bytes → Bytes → Bytes
write_text s rest = length s ∷ (s ++ rest)

abbrev split_at : ℕ → Bytes → Bytes × Bytes
split_at zero s = ([], s)
split_at (suc n) [] = ([], [])
split_at (suc n) (c ∷ s) = let (a, b) = split_at n s in (c ∷ a, b)

abbrev read_text : Bytes → Bytes × Bytes
read_text [] = ([], [])
read_text (n ∷ s) = split_at n s

read-write_text : (s rest : Bytes) → read_text (write_text s rest) ≡ (s, rest)
read-write_text [] rest = refl
read-write_text (c ∷ s) rest = rw (read-write_text s rest) refl

abbrev coded : CrossTxInfo → Bytes
coded info = write_text info.crosstxid (
    write_text info.srcbid (
      write_text info.destbid (
        write_int info.amount (
          write_int info.status (
            write_int info.refunded (
              write_int info.createtimestamp (
                write_int info.executetimestamp (
                  write_int info.timeout (
                    write_text info.errordesc (
                      write_int info.confirmseq (
                        write_text info.sendtxhash (
                          write_text info.sendacktol1hash
                            (write_text info.sendacktol2hash [])))))))))))))

abbrev decoded : Bytes → CrossTxInfo
decoded s₀ =
    let (crosstxid, s₁) = read_text s₀ in
    let (srcbid, s₂) = read_text s₁ in
    let (destbid, s₃) = read_text s₂ in
    let (amount, s₄) = read_int s₃ in
    let (status, s₅) = read_int s₄ in
    let (refunded, s₆) = read_int s₅ in
    let (createtimestamp, s₇) = read_int s₆ in
    let (executetimestamp, s₈) = read_int s₇ in
    let (timeout, s₉) = read_int s₈ in
    let (errordesc, s₁₀) = read_text s₉ in
    let (confirmseq, s₁₁) = read_int s₁₀ in
    let (sendtxhash, s₁₂) = read_text s₁₁ in
    let (sendacktol1hash, s₁₃) = read_text s₁₂ in
    let (sendacktol2hash, s₁₄) = read_text s₁₃ in
    record {
      crosstxid = crosstxid;
      srcbid = srcbid;
      destbid = destbid;
      amount = amount;
      status = status;
      refunded = refunded;
      createtimestamp = createtimestamp;
      executetimestamp = executetimestamp;
      timeout = timeout;
      errordesc = errordesc;
      confirmseq = confirmseq;
      sendtxhash = sendtxhash;
      sendacktol1hash = sendacktol1hash;
      sendacktol2hash = sendacktol2hash;
    }

decoded-coded : (info : CrossTxInfo) → decoded (coded info) ≡ info
decoded-coded info = simp (read-write_text, read-write_int)

as_status : (o : Option Bytes) → is_some o ≡ is_ok (elim o [ none ↦ not_found | some v ↦ ok v ])
as_status none = refl
as_status (some v) = refl

-- The entries of a store from a key on.
abbrev from_key : Bytes → Map Bytes → Map Bytes
from_key p [] = []
from_key p ((j, v) ∷ d) = if bytes_lt j p then from_key p d else (j, v) ∷ from_key p d

find-from_key :
    (p k : Bytes) (d : Map Bytes) → bytes_lt k p ≡ false → find k (from_key p d) ≡ find k d
unfolding find
find-from_key p k [] h = refl
find-from_key p k ((j, v) ∷ d) h = elim (Bool-cases (bytes_eq j k)) [
  | inl e ↦ rw (bytes_eq_sound j k e, h, bytes_eq_refl k) refl
  | inr e ↦ ground (arith, find-from_key p k d h)
]

abbrev coded_env : Env
coded_env = record test_env {
  configure = record {
    layer1_configure = record settings1 { fee_limit = pos 0 };
    layer2_configure = settings2;
  };
  db_seek = λ p d. some (from_key p d);
  serialize = coded;
  parse = λ s. (true, decoded s);
}

coded_env-DbLaws : DbLaws coded_env
coded_env-DbLaws =
    let laws = test_env-DbLaws in
    record {
      put_accepts = laws.put_accepts;
      delete_accepts = laws.delete_accepts;
      get_put = laws.get_put;
      get_delete = laws.get_delete;
    }

-- The process handles a message and then its timer.
abbrev first_process : Agent coded_env
first_process = record {
  world = codes "first" ∷ codes "second" ∷ codes "ledger" ∷ codes "accepted" ∷ [];
  db = [];
  tables = λ t. [];
}

first_process-IsConsistent : IsConsistent coded_env first_process
unfolding find
first_process-IsConsistent = record {
  keys = λ t k. refl;
  sorted = λ t. tt;
  named = λ t k c e. cc;
  deadlines = λ t k c e. cc;
}

-- It leaves one record: the acknowledgement that it has sent to layer 1.
abbrev left_store : Map Bytes
left_store =
    (
      db_key l1_send_ack (codes "t1"),
      coded (record transfer { status = pos 1; sendacktol1hash = codes "h1" }),
    )
    ∷ []

ended :
    (s' : Agent coded_env) × (run coded_env two_events first_process ≡ done (tt, s'))
    × (s'.db ≡ left_store)
unfolding run crosschain_agent.Exec.◌>>=◌ crosschain_agent.Glue.HandleManager.handle
    crosschain_agent.Glue.HandleManager.on_layer2_subscribe_response
    crosschain_agent.Glue.HandleManager.layer2_response bytes_eq
    crosschain_agent.Glue.HandleManager.first_tlog crosschain_agent.Glue.HandleManager.first_item
    crosschain_agent.Glue.Layer1ToLayer2.Events.handle_send_tx_event
    crosschain_agent.Glue.Layer1ToLayer2.Events.acknowledge_send_tx
    crosschain_agent.Glue.Node.on_world crosschain_agent.Exec.zoom
    crosschain_agent.WebClient.Query.get_layer2_cross_tx_info
    crosschain_agent.Glue.Layer1ToLayer2.Events.read_cross_tx
    crosschain_agent.Glue.Layer1ToLayer2.Parse.make_cross_tx_info
    crosschain_agent.Strings.Items.render crosschain_agent.Strings.strip_brackets
    crosschain_agent.Strings.to_string crosschain_agent.Glue.Layer1ToLayer2.Parse.read_items
    crosschain_agent.Strings.getline_all crosschain_agent.Strings.stol crosschain_agent.Strings.stoi
    crosschain_agent.Glue.Layer1ToLayer2.Events.acknowledge
    crosschain_agent.Glue.Layer1ToLayer2.Send.send_ack_to_layer1
    crosschain_agent.Glue.Layer1ToLayer2.Send.send_transaction_to_layer1
    crosschain_agent.Glue.Submit.send_transaction crosschain_agent.Transaction.add_layer1_operation
    crosschain_agent.Transaction.make_layer1_transaction
    crosschain_agent.WebClient.submit_layer1_transaction crosschain_agent.WebClient.int_at
    crosschain_agent.Glue.Layer1ToLayer2.Send.keep_send_ack
    crosschain_agent.Glue.Layer1ToLayer2.Maps.save_send_ack_info crosschain_agent.Glue.Node.on_db
    crosschain_agent.Database.Proxy.db_put crosschain_agent.Env.high_resolution
    crosschain_agent.Glue.Node.on_table crosschain_agent.Glue.Layer1ToLayer2.Maps.clear_send_tx_info
    crosschain_agent.Database.Proxy.db_delete crosschain_agent.Glue.HandleManager.on_timer
    crosschain_agent.Glue.Layer1ToLayer2.TimeOuts.on_timer
    crosschain_agent.Glue.Layer1ToLayer2.TimeOuts.send_tx_to_layer2_time_out
    crosschain_agent.Glue.Node.range_for crosschain_agent.Glue.Node.sweep crosschain_agent.Map.begin
    crosschain_agent.Glue.Node.set_table crosschain_agent.Map.erase
    crosschain_agent.Glue.Layer1ToLayer2.TimeOuts.send_ack_to_layer1_time_out
    crosschain_agent.Map.emplace find crosschain_agent.Glue.Layer1ToLayer2.TimeOuts.check_send_ack
    crosschain_agent.Glue.Layer1ToLayer2.TimeOuts.deadline crosschain_agent.Prelude.add_int64
    crosschain_agent.Glue.Node.advance crosschain_agent.General.make_cross_tx
    crosschain_agent.Map.upper_bound bytes_lt
    crosschain_agent.Glue.Layer1ToLayer2.TimeOuts.reply_ack_to_layer2_time_out
    crosschain_agent.Glue.Layer2ToLayer1.TimeOuts.on_timer
    crosschain_agent.Glue.Layer2ToLayer1.TimeOuts.start_tx_time_out
    crosschain_agent.Glue.Layer2ToLayer1.TimeOuts.send_tx_to_layer1_time_out
    crosschain_agent.Glue.Layer2ToLayer1.TimeOuts.send_ack_to_layer2_time_out
    crosschain_agent.Glue.Layer2ToLayer1.TimeOuts.reply_ack_to_layer1_time_out prefix
    crosschain_agent.Glue.Layer1ToLayer2.Parse.item_or_empty
ended = (_, refl, refl)

left_store_complete :
    (p k : Bytes)
    → bytes_lt k p ≡ false
    → has k (from_key p left_store) ≡ is_ok (coded_env.db_get k left_store)
left_store_complete p k h = rw (find-from_key p k left_store h) (as_status (find k left_store))

stored_first : (k v : Bytes) (d : Map Bytes) → stored k ((k, v) ∷ d) ≡ ok v
unfolding find
stored_first k v d = rw (stored, bytes_eq_refl k) refl

left_store-SeekLaws : (t : Table) → SeekLaws coded_env (prefix t) left_store
left_store-SeekLaws t = record {
  entries = from_key (prefix t) left_store;
  seek = refl;
  ordered = elim (Bool-cases (bytes_lt (db_key l1_send_ack (codes "t1")) (prefix t))) [
    | inl e ↦ rw e tt
    | inr e ↦ rw e (tt, tt)
  ];
  from = elim (Bool-cases (bytes_lt (db_key l1_send_ack (codes "t1")) (prefix t))) [
    | inl e ↦ rw e tt
    | inr e ↦ rw e (e, tt)
  ];
  held = elim (Bool-cases (bytes_lt (db_key l1_send_ack (codes "t1")) (prefix t))) [
    | inl e ↦ rw e tt
    | inr e ↦ rw e (stored_first _ _ [], tt)
  ];
  complete = left_store_complete (prefix t);
}

nothing_held : (v : Bytes) → not_found ≡ ok v → ⊥
nothing_held v e = cc

restart_lem_example :
    (s'' : Agent coded_env) × (initialize coded_env
        (record { world = codes "account" ∷ []; db = ended.0.db; tables = λ t. [] })
      ≡ done (true, s''))
    × IsConsistent coded_env s''
    × ((t : Table) (k : Bytes) → has k (s''.tables t) ≡ has k (ended.0.tables t))
unfolding get_balance enough min_balance find
    crosschain_agent.Glue.HandleManager.check_layer2_balance
    crosschain_agent.Glue.HandleManager.check_layer1_balance bytes_eq
    crosschain_agent.Prelude.mul_int64
restart_lem_example =
    restart_lem coded_env coded_env-DbLaws
      (record { parse-serialize = λ info. rw (decoded-coded info) refl }) two_events first_process
      ended.0 (codes "account" ∷ []) (codes "account" ∷ []) []
      (λ t. rw ended.2 (left_store-SeekLaws t)) first_process-IsConsistent
      (λ t k v e. absurd (nothing_held v e)) ended.1 refl refl
