-- ===== src/Settings/Logger.antt =====
-- LoggerConfigure::Load of src/common/configure_base.cpp, and Configure::LoadFromJson of
-- src/main/configure.cpp, which loads the four parts.
use crosschain_agent.Prelude.{
  Bytes, ℤ, ℕ, [], bytes_eq, Option, pos, if◌then◌else◌, List, ◌*ℤ◌, ◌/◌, codes, ◌∷◌, ltb_ℤ, Bool,
  ◌^◌, ◌%◌, ◌&&◌, mul_int64, false, true, ◌==◌, not, ◌+◌, negsuc, ◌*◌, ◌-◌, some, none,
}
use crosschain_agent.Settings.{SettingsApi, get_value}
use crosschain_agent.Settings.Layers.{
  Layer1Configure, layer1_configure, Layer2Configure, layer2_configure, load1, WebServerConfigure,
  web_server_configure, load2, load_web_server,
}
use crosschain_agent.Exec.{Exec, conversion, expect, json_type, modify, pure, ◌>>=◌, ◌>>◌}
use crosschain_agent.Utils.Text.{strtok, to_upper}

pub record LoggerConfigure : Type 0 where
  pub path : Bytes
  pub dest_str : Bytes
  pub level_str : Bytes
  pub time_capacity : ℤ
  pub size_capacity : ℤ
  pub dest : ℕ
  pub level : ℕ
  pub expire_days : ℤ

-- The constructor: LOG_DEST_OUT and LOG_DEST_FILE, and LOG_LEVEL_ALL.
abbrev pub logger_configure : LoggerConfigure
logger_configure = record {
  path = [];
  dest_str = [];
  level_str = [];
  time_capacity = pos 30;
  size_capacity = pos 100;
  dest = 3;
  level = 255;
  expire_days = pos 10;
}

-- `flags | 2 ^ bit`.
abbrev with_bit : ℕ → ℕ → ℕ
with_bit bit flags = if flags / 2 ^ bit % 2 == 1 then flags else flags + 2 ^ bit

-- The effect of one item on the flags: ALL sets them all, and an unknown item has none.
unfoldable pub add_dest : Bytes → ℕ → ℕ
unfolding bytes_eq
add_dest item dest =
    if bytes_eq item (codes "ALL")
    then 255
    else if bytes_eq item (codes "STDOUT")
    then with_bit 1 dest
    else if bytes_eq item (codes "STDERR")
    then with_bit 2 dest
    else if bytes_eq item (codes "FILE")
    then with_bit 0 dest
    else if bytes_eq item (codes "PERFORMANCE")
    then with_bit 3 dest
    else dest

unfoldable pub add_level : Bytes → ℕ → ℕ
unfolding bytes_eq
add_level item level =
    if bytes_eq item (codes "ALL")
    then 255
    else if bytes_eq item (codes "TRACE")
    then with_bit 0 level
    else if bytes_eq item (codes "DEBUG")
    then with_bit 1 level
    else if bytes_eq item (codes "INFO")
    then with_bit 2 level
    else if bytes_eq item (codes "WARNING")
    then with_bit 3 level
    else if bytes_eq item (codes "ERROR")
    then with_bit 4 level
    else if bytes_eq item (codes "FATAL")
    then with_bit 5 level
    else if bytes_eq item (codes "PERFORMANCE")
    then with_bit 6 level
    else level

-- The loop over the items of a text, from the flags `flags` on.
unfoldable pub add_all : (Bytes → ℕ → ℕ) → List Bytes → ℕ → ℕ
add_all add [] flags = flags
add_all add (item ∷ items) flags = add_all add items (add (to_upper item) flags)

-- A product that is stored in an `int32_t`; a product that does not fit is undefined.
abbrev mul_int32 : ℤ → ℤ → Option ℤ
mul_int32 a b =
    let product = a *ℤ b in
    if ltb_ℤ product (pos (2 ^ 31)) && not (ltb_ℤ product (negsuc (2 ^ 31 - 1)))
    then some product
    else none

module _ (api : SettingsApi) {S : Type 0} where
  unfoldable pub load_logger : api.Json → LoggerConfigure → Exec S (Bool × LoggerConfigure)
  unfolding get_value add_all add_dest add_level strtok to_upper mul_int64 ◌*ℤ◌ ◌>>=◌
  load_logger value c = do
    path ← get_value api api.as_string value (codes "path") c.path
    dest_str ← get_value api api.as_string value (codes "dest") c.dest_str
    level_str ← get_value api api.as_string value (codes "level") c.level_str
    days ← get_value api api.as_int value (codes "time_capacity") c.time_capacity
    size ← get_value api api.as_int64 value (codes "size_capacity") c.size_capacity
    expire_days ← get_value api api.as_int value (codes "expire_days") c.expire_days
    time_capacity ← expect conversion (mul_int32 days (pos (3600 * 24)))
    pure (
      true,
      record {
        path = path;
        dest_str = dest_str;
        level_str = level_str;
        time_capacity = time_capacity;
        size_capacity = mul_int64 size (pos (1024 * 1024));
        dest = add_all add_dest (strtok dest_str b'|') 0;
        level = add_all add_level (strtok level_str b'|') 0;
        expire_days = expire_days;
      },
    )

-- Configure
pub record Configure : Type 0 where
  pub logger : LoggerConfigure
  pub layer1 : Layer1Configure
  pub layer2 : Layer2Configure
  pub webserver : WebServerConfigure

abbrev pub configure : Configure
configure = record {
  logger = logger_configure;
  layer1 = layer1_configure;
  layer2 = layer2_configure;
  webserver = web_server_configure;
}

module _ (api : SettingsApi) where
  -- One part is loaded from the member of its name.
  abbrev load_part :
      {C : Type 0}
      → (api.Json → C → Exec Configure (Bool × C))
      → Bytes
      → (Configure → C)
      → (C → Configure → Configure)
      → api.Json
      → Exec Configure Bool
  load_part load key part put values c =
      (do
        value ← expect json_type (api.member values key)
        loaded ← load value (part c)
        modify (put (loaded.1))
        pure loaded.0)
        c

  abbrev and_then : Exec Configure Bool → Exec Configure Bool → Exec Configure Bool
  and_then first next = do ok ← first; if ok then next else pure false

  -- The test that the four members are there, which stops at the first that is not.
  abbrev has_members : api.Json → List Bytes → Exec Configure Bool
  has_members values [] = pure true
  has_members values (key ∷ keys) =
      and_then (expect json_type (api.is_member values key)) (has_members values keys)

  unfoldable pub load_from_json : api.Json → Exec Configure Bool
  unfolding load_logger load1 load2 load_web_server ◌>>=◌
  load_from_json values =
      and_then
        (has_members values
          (codes "logger" ∷ codes "layer1" ∷ codes "webserver" ∷ codes "layer2" ∷ []))
        (and_then
          (load_part (load_logger api) (codes "logger") (λ c. c.logger)
            (λ x c. record c { logger = x }) values)
          (and_then
            (load_part (load1 api) (codes "layer1") (λ c. c.layer1) (λ x c. record c { layer1 = x })
              values)
            (and_then
              (load_part (load2 api) (codes "layer2") (λ c. c.layer2)
                (λ x c. record c { layer2 = x }) values)
              (load_part (load_web_server api) (codes "webserver") (λ c. c.webserver)
                (λ x c. record c { webserver = x }) values))))
