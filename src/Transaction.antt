-- ===== src/Transaction.antt =====
-- src/common/layer1_transaction.cpp and layer2_transaction.cpp: the transactions that the agent sends.
use crosschain_agent.Prelude.{Bytes, pos, ℤ, [], ◌++◌, ◌∷◌, if◌then◌else◌, not, eqb_ℤ}
use crosschain_agent.Messages.{Transaction, Configure}
use crosschain_agent.Exec.{◌>>=◌, Exec, pure, state}
use crosschain_agent.Env.{Env}

-- Layer1Transaction::Layer1Transaction; the nonce's type RANDOM_NONCE is fixed and left out.
unfoldable pub make_layer1_transaction : Configure → Transaction
make_layer1_transaction c = record {
  source_address = c.layer1_configure.agent_address;
  fee_limit = c.layer1_configure.fee_limit;
  gas_price = c.layer1_configure.gas_price;
  chain_id = pos 0;
  nonce = pos 0;
  max_ledger_seq = pos 0;
  operations = [];
}

-- Layer2Transaction::Layer2Transaction
unfoldable pub make_layer2_transaction : Configure → Transaction
make_layer2_transaction c = record {
  source_address = c.layer2_configure.agent_address;
  fee_limit = c.layer2_configure.fee_limit;
  gas_price = c.layer2_configure.gas_price;
  chain_id = pos 0;
  nonce = pos 0;
  max_ledger_seq = pos 0;
  operations = [];
}

-- Layer1Transaction::AddTransactionOperation
unfoldable pub add_layer1_operation : Configure → Transaction → Bytes → ℤ → Transaction
add_layer1_operation c t input amount = record t {
  operations =
      t.operations
      ++ record { dest_address = c.layer1_configure.cross_contract; input = input; coins = amount }
        ∷ [];
}

-- Layer2Transaction::AddTransactionOperation
unfoldable pub add_layer2_operation : Configure → Transaction → Bytes → ℤ → Transaction
add_layer2_operation c t input amount = record t {
  operations =
      t.operations
      ++ record { dest_address = c.layer2_configure.cross_contract; input = input; coins = amount }
        ∷ [];
}

-- SetRandomNonce, the same in both classes.
unfoldable pub set_random_nonce : (env : Env) → Transaction → ℤ → Exec env.World Transaction
unfolding ◌>>=◌
set_random_nonce env t nonce =
    if not (eqb_ℤ nonce (pos 0))
    then pure (record t { nonce = nonce })
    else (do millis ← state env.system_millis; pure (record t { nonce = millis }))

-- The transaction that GetTransactionBlob serializes.
unfoldable pub prepare : (env : Env) → Transaction → ℤ → Exec env.World Transaction
unfolding set_random_nonce ◌>>=◌
prepare env t max_seq = do
  numbered ← (if eqb_ℤ t.nonce (pos 0) then set_random_nonce env t (pos 0) else pure t)
  pure (record numbered { max_ledger_seq = max_seq })

-- GetTransactionBlob, the same in both classes.
unfoldable pub get_transaction_blob : (env : Env) → Transaction → ℤ → Exec env.World Bytes
unfolding prepare ◌>>=◌
get_transaction_blob env t max_seq = do
  prepared ← prepare env t max_seq
  pure (env.encode_b16 (env.serialize_transaction prepared))
