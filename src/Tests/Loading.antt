-- ===== src/Tests/Loading.antt =====
-- The settings of layer 1 are loaded, and a public key is read.
use crosschain_agent.Settings.Layers.{Layer1Configure, layer1_configure, load1}
use crosschain_agent.Prelude.{
  bytes_eq, codes, inl, inr, ◌≡◌, none, pos, false, some, pos_part, ◌⊎◌, starts_with, refl, ◌∷◌, [],
  if◌then◌else◌, ◌==◌, ◌&&◌, arith,
}
use crosschain_agent.Settings.{SettingsApi}
use crosschain_agent.Tests.Network.{
  Value, has_member, entry, value_at, str_value, str, int_value, int, null,
}
use crosschain_agent.Settings.Loaded.{load1_lem, manager_topics}
use crosschain_agent.Settings.Readable.{IsLayer, IsLoaded}
use crosschain_agent.Settings.Layers.{load1, layer1_configure}
use crosschain_agent.Exec.{done}
use crosschain_agent.Keys.{
  get_public_key_element, public_key_prefix, encodetype_base58, key_publickey, get_enc_public_key,
}
use crosschain_agent.Strings.{bin_to_hex_string}
use crosschain_agent.Keys.Elements.{get_public_key_element_lem}

abbrev settings_api : SettingsApi
settings_api = record {
  Json = Value;
  is_member = has_member;
  member = value_at;
  as_string = str_value;
  as_int = int_value;
  as_uint = λ v. elim (int_value v) [ none ↦ none | some z ↦ some (pos_part z) ];
  as_int64 = int_value;
  hex_decrypto = λ s. s;
  is_valid = λ key. starts_with (codes "pri") key;
  get_enc_address = λ key. key;
}

abbrev layer1_settings : Value
layer1_settings =
    entry (codes "private_key") (str (codes "prikey"))
      (entry (codes "fee_limit") (int (pos 5)) (entry (codes "gas_price") (int (pos 0)) null))

layer1_settings-IsLayer : IsLayer settings_api layer1_settings
unfolding bytes_eq
layer1_settings-IsLayer = record {
  http_endpoint = inl refl;
  ws_endpoint = inl refl;
  cross_contract = inl refl;
  private_key = inr (str (codes "prikey"), codes "prikey", refl, refl, refl);
  fee_limit = (int (pos 5), pos 5, refl, refl, refl);
  gas_price = (int (pos 0), pos 0, refl, refl, refl);
  cross_topic = inl refl;
}

load1_lem_example :
    (c' : Layer1Configure) × (load1 settings_api layer1_settings layer1_configure tt
      ≡ done ((settings_api.is_valid c'.fields.private_key, c'), tt))
    × ((settings_api.is_valid c'.fields.private_key ≡ false)
        ⊎ IsLoaded settings_api c'.fields × (c'.topics ≡ manager_topics settings_api))
load1_lem_example =
    load1_lem settings_api {S = Unit} layer1_settings layer1_configure tt layer1_settings-IsLayer

-- A key of one byte, of a type of signature that there is not.
get_public_key_element_lem_example :
    (get_public_key_element (bin_to_hex_string (176 ∷ 7 ∷ 102 ∷ 1 ∷ [])) ≡ (
      if 176 == public_key_prefix && 102 == encodetype_base58
      then some
          (record { key_type = key_publickey; sign_type = 7; encode_type = 102; raw_data = 1 ∷ [] })
      else none))
    × (get_public_key_element (get_enc_public_key 7 (1 ∷ []))
        ≡ some (record {
          key_type = key_publickey;
          sign_type = 7;
          encode_type = encodetype_base58;
          raw_data = 1 ∷ [];
        }))
get_public_key_element_lem_example =
    get_public_key_element_lem 176 7 102 (1 ∷ [])
      (omega arith, (omega arith, (omega arith, (omega arith, tt))))
