-- ===== src/Keys.antt =====
-- KeypairUtils of src/common/private_key.cpp: the outer form of keys and addresses. Base58 and the two
-- hashes are parameters.
pub mod Elements
use crosschain_agent.Prelude.{
  Bytes, ℕ, Bool, Option, if◌then◌else◌, bytes_eq, ◌==◌, ◌∷◌, codes, false, not, ltb, starts_with,
  [], none, length, some, take, drop, ◌++◌,
}
use crosschain_agent.Strings.{hex_string_to_bin, bin_to_hex_string}
use crosschain_agent.General.Address.{AddressPrefix, encode, decode}
use crosschain_agent.Exec.{◌>>=◌, Exec, expect, bad_position, pure}

-- The enumerations of private_key.h, whose values a byte is cast to without a test.
abbrev pub signtype_none : ℕ
signtype_none = 0

abbrev pub signtype_ed25519 : ℕ
signtype_ed25519 = b'e'

abbrev pub signtype_cfcasm2 : ℕ
signtype_cfcasm2 = b'z'

abbrev pub signtype_rsa : ℕ
signtype_rsa = 3

abbrev pub signtype_cfca : ℕ
signtype_cfca = 4

abbrev pub encodetype_base58 : ℕ
encodetype_base58 = b'f'

pub data KeyType : Type 0 where
  key_address key_publickey key_privatekey : KeyType

-- What GetPublicKeyElement and GetKeyElement give beside their result.
pub record KeyElement : Type 0 where
  pub key_type : KeyType
  pub sign_type : ℕ
  pub encode_type : ℕ
  pub raw_data : Bytes

abbrev pub public_key_prefix : ℕ
public_key_prefix = 176

-- The test of the length that the switch over the type of the signature makes.
abbrev length_fits : ℕ → ℕ → ℕ → ℕ → Bool
length_fits sign_type ed25519_length sm2_length datalen =
    if sign_type == signtype_ed25519
    then ed25519_length == datalen
    else if sign_type == signtype_cfcasm2
    then sm2_length == datalen
    else false

-- `ret` is set by the switch, and then set again by the test of the encoding.
abbrev last_ret : Bool → ℕ → Bool
last_ret ret encode_type = encode_type == encodetype_base58

-- The first three bytes and the rest.
abbrev public_key_parts : Bytes → Option KeyElement
public_key_parts (a ∷ b ∷ c ∷ raw) =
    if not (a == public_key_prefix)
    then none
    else if last_ret (length_fits b 32 65 (length raw)) c
    then some (record { key_type = key_publickey; sign_type = b; encode_type = c; raw_data = raw })
    else none
public_key_parts _ = none

-- GetPublicKeyElement; `none` is the result `false`.
unfoldable pub get_public_key_element : Bytes → Option KeyElement
unfolding hex_string_to_bin
get_public_key_element encode_pub_key = public_key_parts (hex_string_to_bin encode_pub_key)

-- PublicKeyV4::GetEncPublicKey, of a type and a raw key.
unfoldable pub get_enc_public_key : ℕ → Bytes → Bytes
unfolding bin_to_hex_string
get_enc_public_key sign_type raw_pub_key =
    bin_to_hex_string (public_key_prefix ∷ sign_type ∷ encodetype_base58 ∷ raw_pub_key)

module _ (base58_encode base58_decode : Bytes → Bytes) (p : AddressPrefix) where
  unfoldable pub encode_address : ℕ → ℕ → Bytes → Bytes
  unfolding encode
  encode_address sign_type encode_type address =
      encode p (sign_type ∷ encode_type ∷ base58_encode address)

  -- `none` is the exception of `substr`.
  unfoldable pub decode_address : Bytes → Option Bytes
  unfolding decode
  decode_address address =
      let coded = decode p address in
      if ltb (length address) 2
      then some []
      else if ltb (length coded) 2
      then none
      else some (base58_decode (drop 2 coded))

  unfoldable pub get_address_index : Bytes → Bytes
  unfolding decode
  get_address_index address =
      let tmp = decode p address in
      if ltb (length tmp) 2 then [] else take 2 tmp ++ base58_decode (drop 2 tmp)

  -- The part of GetKeyElement for an address, after its bytes are decoded.
  abbrev address_parts : Bytes → Bytes → Option KeyElement
  address_parts (a ∷ b ∷ rest) buff =
      if not (length buff == 22)
      then none
      else if last_ret (length_fits a 22 22 (length buff)) b
      then some (record {
        key_type = key_address;
        sign_type = a;
        encode_type = b;
        raw_data = drop 2 buff;
      })
      else none
  address_parts _ buff = none

  abbrev private_key_parts : Bytes → Option KeyElement
  private_key_parts (x ∷ y ∷ z ∷ a ∷ b ∷ raw) =
      if not (length raw == 32)
      then none
      else if last_ret (length_fits a 32 32 (length raw)) b
      then some
          (record { key_type = key_privatekey; sign_type = a; encode_type = b; raw_data = raw })
      else none
  private_key_parts _ = none

  unfoldable pub get_key_element : {S : Type 0} → Bytes → Exec S (Option KeyElement)
  unfolding decode_address decode starts_with ◌>>=◌
  get_key_element encode_key =
      let base58addr = decode p encode_key in
      if starts_with p.address_prefix encode_key
      then (expect bad_position (decode_address base58addr) >>= λ buff.
          pure (address_parts base58addr buff))
      else if starts_with (codes "pri") encode_key
      then pure (private_key_parts (base58_decode encode_key))
      else pure none

unfoldable pub get_sign_type_desc : ℕ → Bytes
get_sign_type_desc t =
    if t == signtype_cfca
    then codes "cfca"
    else if t == signtype_cfcasm2
    then codes "sm2"
    else if t == signtype_rsa
    then codes "rsa"
    else if t == signtype_ed25519
    then codes "ed25519"
    else []

unfoldable pub get_sign_type_by_desc : Bytes → ℕ
unfolding bytes_eq
get_sign_type_by_desc desc =
    if bytes_eq desc (codes "sm2")
    then signtype_cfcasm2
    else if bytes_eq desc (codes "rsa")
    then signtype_rsa
    else if bytes_eq desc (codes "ed25519")
    then signtype_ed25519
    else signtype_none
