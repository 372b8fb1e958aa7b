-- ===== src/Settings/Loaded.antt =====
-- The settings of the two layers after they are loaded.
use crosschain_agent.Prelude.{
  Bytes, ℤ, List, codes, ◌∷◌, [], ◌≡◌, false, ◌⊎◌, some, Bool-cases, inl, inr, refl,
}
use crosschain_agent.Settings.Readable.{
  Given, IsLayer, IsLoaded, read_endpoints_lem, read_payment_lem, fee_lem, settle_lem,
}
use crosschain_agent.Settings.{SettingsApi}
use crosschain_agent.Settings.Layers.{
  load1, load2, Layer2Configure, Layer1Configure, manager_address, tlog_topic,
}
use crosschain_agent.Utils.Text.{strtok, strtok_loop}
use crosschain_agent.Exec.{done, ◌>>=◌}

module _ (api : SettingsApi) where
  abbrev pub manager_topics : List Bytes
  manager_topics =
      codes "RegisterAgent"
      ∷ codes "FreezeAgent"
      ∷ codes "UnfreezeAgent"
      ∷ codes "StopUsingAgent"
      ∷ codes "Submit"
      ∷ []

  -- If every member of the settings of layer 1 has the kind that is expected and the fees are there,
  -- then Load returns. It answers whether the key is valid; and if it is, the fee limit is at least
  -- 20000, the gas price at least 1, the address is that of the key, no topic is empty, and the topics
  -- of the manager contract are the five that it knows.
  pub load1_lem :
      {S : Type 0} (value : api.Json) (c : Layer1Configure) (s : S)
      → IsLayer api value
      → (c' : Layer1Configure) × (load1 api value c s
          ≡ done ((api.is_valid c'.fields.private_key, c'), s))
        × ((api.is_valid c'.fields.private_key ≡ false)
            ⊎ IsLoaded api c'.fields × (c'.topics ≡ manager_topics))
  unfolding load1 strtok strtok_loop ◌>>=◌
  load1_lem value c s h =
      let (named, e₁) = read_endpoints_lem api value c.fields s h in
      let (paid, fee, price, e₂, is_fee, is_price) = read_payment_lem api value named s h in
      elim (Bool-cases (api.is_valid paid.private_key)) [
        | inl valid ↦
            let (settled, e₃, loaded) =
              settle_lem api value paid fee price s h is_fee is_price valid in
            (
              record {
                fields = settled;
                manager_contract = manager_address;
                topics = strtok tlog_topic b'|';
              },
              rw e₁ (rw e₂ (rw valid (rw e₃ (rw (loaded.valid_key) refl)))),
              inr (loaded, refl),
            )
        | inr broken ↦ (record c { fields = paid }, rw e₁ (rw e₂ (rw broken refl)), inl broken)
      ]

  -- The same of the settings of layer 2, which have an identifier besides.
  pub load2_lem :
      {S : Type 0} (value : api.Json) (c : Layer2Configure) (s : S)
      → IsLayer api value
      → Given api api.as_int64 value (codes "layer2_id")
      → (c' : Layer2Configure) × (load2 api value c s
          ≡ done ((api.is_valid c'.fields.private_key, c'), s))
        × ((api.is_valid c'.fields.private_key ≡ false)
            ⊎ IsLoaded api c'.fields × ((z : ℤ) × (c'.layer2_id ≡ some z)))
  unfolding load2 ◌>>=◌
  load2_lem value c s h id_given =
      let (named, e₁) = read_endpoints_lem api value c.fields s h in
      let (number, e) = fee_lem api value _ c.layer2_id s id_given in
      let (paid, fee, price, e₂, is_fee, is_price) = read_payment_lem api value named s h in
      elim (Bool-cases (api.is_valid paid.private_key)) [
        | inl valid ↦
            let (settled, e₃, loaded) =
              settle_lem api value paid fee price s h is_fee is_price valid in
            (
              record { fields = settled; layer2_id = some number },
              rw e₁ (rw e (rw e₂ (rw valid (rw e₃ (rw (loaded.valid_key) refl))))),
              inr (loaded, (number, refl)),
            )
        | inr broken ↦ (
          record { fields = paid; layer2_id = some number },
          rw e₁ (rw e (rw e₂ (rw broken refl))),
          inl broken,
        )
      ]
