-- ===== src/Settings/Readable.antt =====
-- The settings of one layer: what is expected of the file, and what the parts of Load make of it.
use crosschain_agent.Prelude.{
  Bytes, ℤ, Option, codes, ◌≡◌, none, some, true, false, inl, ◌⊎◌, ◌≤ℤ◌, refl, pos, inr,
  if◌then◌else◌, bytes_eq, Bool-cases, ltb_ℤ, take, arith,
}
use crosschain_agent.Settings.{SettingsApi, get_value}
use crosschain_agent.Settings.Layers.{
  LayerFields, read_endpoints, read_payment, least_fee_limit, given_topics, or_default, read_topics,
  settle_payment, default_start_tx_topic, default_send_tx_topic, default_ack_tx_topic, settle,
}
use crosschain_agent.Exec.{done, expect, ◌>>=◌}
use crosschain_agent.Utils.Text.{is_empty}

module _ (api : SettingsApi) where
  -- An object has no member of a name, or one that can be converted.
  abbrev pub Given : {A : Type 0} → (api.Json → Option A) → api.Json → Bytes → Type 0
  Given {A} read object key =
      (m : api.Json) × (a : A) × (api.is_member object key ≡ some true)
      × (api.member object key ≡ some m)
      × (read m ≡ some a)

  abbrev pub Readable : {A : Type 0} → (api.Json → Option A) → api.Json → Bytes → Type 0
  Readable read object key = (api.is_member object key ≡ some false) ⊎ Given read object key

  -- The settings of one layer in which every member has the kind that is expected, and the fees are
  -- there.
  pub record IsLayer (value : api.Json) : Type 0 where
    pub http_endpoint : Readable api.as_string value (codes "http_endpoint")
    pub ws_endpoint : Readable api.as_string value (codes "ws_endpoint")
    pub cross_contract : Readable api.as_string value (codes "cross_contract")
    pub private_key : Readable api.as_string value (codes "private_key")
    pub fee_limit : Given api.as_int64 value (codes "fee_limit")
    pub gas_price : Given api.as_int64 value (codes "gas_price")
    pub cross_topic :
        (api.is_member value (codes "cross_topic") ≡ some false)
        ⊎ ((t : api.Json) × (api.is_member value (codes "cross_topic") ≡ some true)
            × (api.member value (codes "cross_topic") ≡ some t)
            × Readable api.as_string t (codes "start_tx")
            × Readable api.as_string t (codes "send_tx")
            × Readable api.as_string t (codes "send_ack"))

  -- What the rest of the agent relies on.
  pub record IsLoaded (c : LayerFields) : Type 0 where
    pub fee_limit : (z : ℤ) × (c.fee_limit ≡ some z) × (least_fee_limit ≤ℤ z)
    pub gas_price : (z : ℤ) × (c.gas_price ≡ some z) × (pos 1 ≤ℤ z)
    pub valid_key : api.is_valid c.private_key ≡ true
    pub own_address : c.agent_address ≡ api.get_enc_address c.private_key
    pub start_tx_topic : is_empty c.start_tx_topic ≡ false
    pub send_tx_topic : is_empty c.send_tx_topic ≡ false
    pub ack_tx_topic : is_empty c.ack_tx_topic ≡ false

  given_value :
      {A S : Type 0} (read : api.Json → Option A) (object : api.Json) (key : Bytes) (m : api.Json)
      (old a : A) (s : S)
      → api.is_member object key ≡ some true
      → api.member object key ≡ some m
      → read m ≡ some a
      → get_value api read object key old s ≡ done (a, s)
  unfolding get_value ◌>>=◌
  given_value read object key m old a s is_there there reads =
      rw (is_there, expect) (rw (there, expect) (rw (reads, expect) refl))

  get_value_lem :
      {A S : Type 0} (read : api.Json → Option A) (object : api.Json) (key : Bytes) (old : A)
      (s : S)
      → Readable read object key
      → (a : A) × (get_value api read object key old s ≡ done (a, s))
  unfolding get_value ◌>>=◌
  get_value_lem read object key old s (inl absent) = (old, rw (absent, expect) refl)
  get_value_lem read object key old s (inr (m, a, is_there, there, reads)) =
      (a, given_value read object key m old a s is_there there reads)

  pub read_endpoints_lem :
      {S : Type 0} (value : api.Json) (c : LayerFields) (s : S)
      → IsLayer value
      → (c' : LayerFields) × (read_endpoints api value c s ≡ done (c', s))
  unfolding read_endpoints ◌>>=◌
  read_endpoints_lem value c s h =
      let (http, e₁) = get_value_lem api.as_string value _ c.http_endpoint s h.http_endpoint in
      let (ws, e₂) = get_value_lem api.as_string value _ c.ws_endpoint s h.ws_endpoint in
      let (cross, e₃) = get_value_lem api.as_string value _ c.cross_contract s h.cross_contract in
      (
        record c { http_endpoint = http; ws_endpoint = ws; cross_contract = cross },
        rw e₁ (rw e₂ (rw e₃ refl)),
      )

  -- A fee that is given has a value after it is read.
  pub fee_lem :
      {S : Type 0} (value : api.Json) (key : Bytes) (old : Option ℤ) (s : S)
      → Given api.as_int64 value key
      → (z : ℤ) × (get_value api
            (λ m. elim (api.as_int64 m) [ none ↦ none | some z ↦ some (some z) ])
            value
            key
            old
            s
          ≡ done (some z, s))
  fee_lem value key old s (m, z, is_there, there, reads) =
      (z, given_value _ value key m old (some z) s is_there there (rw reads refl))

  pub read_payment_lem :
      {S : Type 0} (value : api.Json) (c : LayerFields) (s : S)
      → IsLayer value
      → (c' : LayerFields) × (fee price : ℤ) × (read_payment api value c s ≡ done (c', s))
        × (c'.fee_limit ≡ some fee)
        × (c'.gas_price ≡ some price)
  unfolding read_payment ◌>>=◌
  read_payment_lem value c s h =
      let (fee, e₁) = fee_lem value _ c.fee_limit s h.fee_limit in
      let (price, e₂) = fee_lem value _ c.gas_price s h.gas_price in
      let (key, e₃) = get_value_lem api.as_string value _ c.private_key s h.private_key in
      (
        record c {
          fee_limit = some fee;
          gas_price = some price;
          private_key = if bytes_eq (take 3 key) (codes "pri") then key else api.hex_decrypto key;
        },
        fee,
        price,
        rw e₁ (rw e₂ (rw e₃ refl)),
        refl,
        refl,
      )

  given_topics_lem :
      {S : Type 0} (t : api.Json) (c : LayerFields) (s : S)
      → Readable api.as_string t (codes "start_tx")
      → Readable api.as_string t (codes "send_tx")
      → Readable api.as_string t (codes "send_ack")
      → (x y z : Bytes) × (given_topics api t c s
          ≡ done (record c { start_tx_topic = x; send_tx_topic = y; ack_tx_topic = z }, s))
  unfolding given_topics ◌>>=◌
  given_topics_lem t c s start send ack =
      let (x, e₁) = get_value_lem api.as_string t _ c.start_tx_topic s start in
      let (y, e₂) = get_value_lem api.as_string t _ c.send_tx_topic s send in
      let (z, e₃) = get_value_lem api.as_string t _ c.ack_tx_topic s ack in
      (x, y, z, rw e₁ (rw e₂ (rw e₃ refl)))

  or_default-is_empty :
      (topic default : Bytes)
      → is_empty default ≡ false
      → is_empty (or_default topic default) ≡ false
  or_default-is_empty topic default h = elim (Bool-cases (is_empty topic)) [
    | inl e ↦ rw e h
    | inr e ↦ rw e e
  ]

  -- Only the topics change, and none is empty.
  read_topics_lem :
      {S : Type 0} (value : api.Json) (c : LayerFields) (s : S)
      → IsLayer value
      → (x y z : Bytes) × (read_topics api value c s
          ≡ done (record c { start_tx_topic = x; send_tx_topic = y; ack_tx_topic = z }, s))
        × (is_empty x ≡ false)
        × (is_empty y ≡ false)
        × (is_empty z ≡ false)
  unfolding read_topics ◌>>=◌
  read_topics_lem value c s h = elim h.cross_topic [
    | inl absent ↦ (
      or_default c.start_tx_topic default_start_tx_topic,
      or_default c.send_tx_topic default_send_tx_topic,
      or_default c.ack_tx_topic default_ack_tx_topic,
      rw (absent, expect) refl,
      or_default-is_empty c.start_tx_topic default_start_tx_topic refl,
      or_default-is_empty c.send_tx_topic default_send_tx_topic refl,
      or_default-is_empty c.ack_tx_topic default_ack_tx_topic refl,
    )
    | inr (t, is_there, there, start, send, ack) ↦
        let (x, y, z, e) = given_topics_lem t c s start send ack in
        (
          or_default x default_start_tx_topic,
          or_default y default_send_tx_topic,
          or_default z default_ack_tx_topic,
          rw (is_there, expect) (rw (there, expect) (rw e refl)),
          or_default-is_empty x default_start_tx_topic refl,
          or_default-is_empty y default_send_tx_topic refl,
          or_default-is_empty z default_ack_tx_topic refl,
        )
  ]

  at_least_lem : (low z : ℤ) → low ≤ℤ (if ltb_ℤ z low then low else z)
  at_least_lem low z = elim (Bool-cases (ltb_ℤ z low)) [
    | inl e ↦ rw e (omega arith)
    | inr e ↦ rw e (ground (arith, e))
  ]

  settle_payment_lem :
      {S : Type 0} (c : LayerFields) (fee price : ℤ) (s : S)
      → c.fee_limit ≡ some fee
      → c.gas_price ≡ some price
      → settle_payment api c s
        ≡ done (
          record c {
            agent_address = api.get_enc_address c.private_key;
            gas_price = some (if ltb_ℤ price (pos 1) then pos 1 else price);
            fee_limit = some (if ltb_ℤ fee least_fee_limit then least_fee_limit else fee);
          },
          s,
        )
  unfolding settle_payment ◌>>=◌
  settle_payment_lem c fee price s e₁ e₂ = rw (e₂, expect) (rw (e₁, expect) refl)

  -- What both Loads do once the key is known to be valid.
  pub settle_lem :
      {S : Type 0} (value : api.Json) (c : LayerFields) (fee price : ℤ) (s : S)
      → IsLayer value
      → c.fee_limit ≡ some fee
      → c.gas_price ≡ some price
      → api.is_valid c.private_key ≡ true
      → (c' : LayerFields) × (settle api value c s ≡ done (c', s)) × IsLoaded c'
  unfolding ◌>>=◌
  settle_lem value c fee price s h e₁ e₂ valid =
      let paid : LayerFields = record c {
        agent_address = api.get_enc_address c.private_key;
        gas_price = some (if ltb_ℤ price (pos 1) then pos 1 else price);
        fee_limit = some (if ltb_ℤ fee least_fee_limit then least_fee_limit else fee);
      } in
      let (x, y, z, e, x_full, y_full, z_full) = read_topics_lem value paid s h in
      (
        record paid { start_tx_topic = x; send_tx_topic = y; ack_tx_topic = z },
        rw (settle_payment_lem c fee price s e₁ e₂) (rw e refl),
        record {
          fee_limit = (_, refl, at_least_lem least_fee_limit fee);
          gas_price = (_, refl, at_least_lem (pos 1) price);
          valid_key = valid;
          own_address = refl;
          start_tx_topic = x_full;
          send_tx_topic = y_full;
          ack_tx_topic = z_full;
        },
      )
