-- ===== src/Settings.antt =====
-- The settings file: src/common/configure_base.cpp and src/main/configure.cpp.
pub mod Layers
pub mod Logger
pub mod Readable
pub mod Loaded
use crosschain_agent.Prelude.{Bytes, ℤ, Option, Bool, ℕ, if◌then◌else◌}
use crosschain_agent.Exec.{◌>>=◌, Exec, expect, json_type, ◌>>◌, pure}

-- jsoncpp, where `none` is Json::LogicError; Aes::HexDecrypto with the key of GetDataSecuretKey; and a
-- PrivateKey made from a text: whether it is valid, and its GetEncAddress.
pub record SettingsApi : Type 1 where
  pub Json : Type 0
  pub is_member : Json → Bytes → Option Bool
  pub member : Json → Bytes → Option Json
  pub as_string : Json → Option Bytes
  pub as_int : Json → Option ℤ
  pub as_uint : Json → Option ℕ
  pub as_int64 : Json → Option ℤ
  pub hex_decrypto : Bytes → Bytes
  pub is_valid : Bytes → Bool
  pub get_enc_address : Bytes → Bytes

module _ (api : SettingsApi) {S : Type 0} where
  -- `object[key].asString()`, or another conversion.
  abbrev read_member : {A : Type 0} → (api.Json → Option A) → api.Json → Bytes → Exec S A
  read_member read object key = do
    m ← expect json_type (api.member object key)
    expect json_type (read m)

  -- ConfigureBase::GetValue, which leaves the old value if there is no such member.
  unfoldable pub get_value : {A : Type 0} → (api.Json → Option A) → api.Json → Bytes → A → Exec S A
  unfolding ◌>>=◌
  get_value read object key value = do
    present ← expect json_type (api.is_member object key)
    if present then read_member read object key else pure value
