-- ===== src/Glue/Node/Keys.antt =====
-- The keys of the store tell the maps and the transfers apart.
use crosschain_agent.Prelude.{
  Bytes, starts_with, bytes_eq, ◌++◌, ◌≡◌, false, true, ◌&&◌, Bool-cases, arith, ◌∷◌, inl,
  bytes_eq_append, inr, [], refl,
}
use crosschain_agent.Glue.Node.{
  l1_send_tx, l1_send_ack, l1_reply_ack, l2_start_tx, l2_send_tx, l2_send_ack, l2_reply_ack, prefix,
  Table, same, db_key,
}

prefix_apart :
    (t u : Table) (a b : Bytes) → same t u ≡ false → bytes_eq (db_key t a) (db_key u b) ≡ false
unfolding prefix bytes_eq
prefix_apart l1_send_tx l1_send_tx a b h = cc
prefix_apart l1_send_ack l1_send_ack a b h = cc
prefix_apart l1_reply_ack l1_reply_ack a b h = cc
prefix_apart l2_start_tx l2_start_tx a b h = cc
prefix_apart l2_send_tx l2_send_tx a b h = cc
prefix_apart l2_send_ack l2_send_ack a b h = cc
prefix_apart l2_reply_ack l2_reply_ack a b h = cc
prefix_apart t u a b h = refl

pub same_sound : (t u : Table) → same t u ≡ true → t ≡ u
same_sound t u h = ground arith

pub same_refl : (t : Table) → same t t ≡ true
same_refl t = ground arith

-- Two keys are equal exactly if they are of the same map and the same transfer.
pub db_key-eq :
    (t u : Table) (a b : Bytes) → bytes_eq (db_key t a) (db_key u b) ≡ same t u && bytes_eq a b
db_key-eq t u a b = elim (Bool-cases (same t u)) [
  | inl e ↦ rw e (rw (same_sound t u e) (bytes_eq_append (prefix u) a b))
  | inr e ↦ rw e (prefix_apart t u a b e)
]

-- A scan for the prefix of one map meets no key of another.
scan_apart :
    (t u : Table) (a : Bytes) → same t u ≡ false → starts_with (prefix t) (db_key u a) ≡ false
unfolding prefix starts_with
scan_apart l1_send_tx l1_send_tx a h = cc
scan_apart l1_send_ack l1_send_ack a h = cc
scan_apart l1_reply_ack l1_reply_ack a h = cc
scan_apart l2_start_tx l2_start_tx a h = cc
scan_apart l2_send_tx l2_send_tx a h = cc
scan_apart l2_send_ack l2_send_ack a h = cc
scan_apart l2_reply_ack l2_reply_ack a h = cc
scan_apart t u a h = refl

starts_with-append : (p s : Bytes) → starts_with p (p ++ s) ≡ true
unfolding starts_with
starts_with-append [] s = refl
starts_with-append (x ∷ p) s = ground (arith, starts_with-append p s)

-- The scan for a map's prefix meets exactly the keys of that map.
pub starts_with-db_key : (t u : Table) (a : Bytes) → starts_with (prefix t) (db_key u a) ≡ same t u
starts_with-db_key t u a = elim (Bool-cases (same t u)) [
  | inl e ↦ rw e (rw (same_sound t u e) (starts_with-append (prefix u) a))
  | inr e ↦ rw e (scan_apart t u a e)
]
