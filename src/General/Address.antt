-- ===== src/General/Address.antt =====
-- AddressPrefix of src/common/general.cpp, which writes, reads and checks the prefix of an address.
use crosschain_agent.Prelude.{
  Bytes, [], Bool, Option, if◌then◌else◌, All, ◌≡◌, ◌++◌, codes, true, none, ◌∷◌, ◌≢◌, false, arith,
  some, Bool-cases, bytes_eq_refl, ◌==◌, bytes_eq, inl, refl, append_assoc, inr, sym,
}

pub record AddressPrefix : Type 0 where
  pub chain_code : Bytes
  pub address_prefix : Bytes

-- AddressPrefix::Initialize
unfoldable pub initialize : AddressPrefix
initialize = record { chain_code = []; address_prefix = codes "did:bid:" }

is_empty : Bytes → Bool
is_empty [] = true
is_empty (c ∷ s) = false

-- `rfind(":")`, as the part up to the last colon, the colon included, and the part behind it.
split_last_colon : Bytes → Option (Bytes × Bytes)
split_last_colon [] = none
split_last_colon (c ∷ s) = elim (split_last_colon s) [
  | some (front, rest) ↦ some (c ∷ front, rest)
  | none ↦ if c == b':' then some (c ∷ [], s) else none
]

unfoldable pub encode : AddressPrefix → Bytes → Bytes
unfolding is_empty
encode p address =
    if is_empty p.chain_code
    then p.address_prefix ++ address
    else p.address_prefix ++ (p.chain_code ++ b':' ∷ address)

unfoldable pub decode : AddressPrefix → Bytes → Bytes
unfolding split_last_colon
decode p address = elim (split_last_colon address) [ none ↦ address | some (front, rest) ↦ rest ]

-- The prefix that an address of this chain has.
unfoldable pub local_prefix : AddressPrefix → Bytes
unfolding is_empty
local_prefix p =
    if is_empty p.chain_code
    then p.address_prefix
    else p.address_prefix ++ (p.chain_code ++ codes ":")

unfoldable pub check_prefix : AddressPrefix → Bytes → Bool
unfolding split_last_colon local_prefix
check_prefix p address = elim (split_last_colon address) [
  | none ↦ false
  | some (front, rest) ↦ bytes_eq front (local_prefix p)
]

abbrev pub NoColon : Bytes → Type 0
NoColon = All (λ c. c ≢ b':')

-- The prefix of every address ends in a colon.
abbrev pub EndsInColon : AddressPrefix → Type 0
EndsInColon p = (front : Bytes) × (p.address_prefix ≡ front ++ b':' ∷ [])

no_colon : (s : Bytes) → NoColon s → split_last_colon s ≡ none
unfolding split_last_colon
no_colon [] h = refl
no_colon (c ∷ s) h = ground (arith, no_colon s h.1)

last_colon :
    (front s : Bytes)
    → NoColon s
    → split_last_colon (front ++ b':' ∷ s) ≡ some (front ++ b':' ∷ [], s)
unfolding split_last_colon
last_colon [] s h = rw (no_colon s h)
last_colon (c ∷ front) s h = rw (last_colon front s h)

encode-parts :
    (p : AddressPrefix) (address : Bytes)
    → EndsInColon p
    → (front : Bytes) × (encode p address ≡ front ++ b':' ∷ address)
      × (local_prefix p ≡ front ++ b':' ∷ [])
unfolding encode local_prefix
encode-parts p address (front, e) = elim (Bool-cases (is_empty p.chain_code)) [
  | inl none_set ↦ (front, rw none_set (rw e (append_assoc front _ _)), rw none_set e)
  | inr set_code ↦ (
    p.address_prefix ++ p.chain_code,
    rw set_code (sym (append_assoc p.address_prefix p.chain_code _)),
    rw set_code (sym (append_assoc p.address_prefix p.chain_code _)),
  )
]

-- For a prefix that ends in a colon and an address without one, Decode undoes Encode, and CheckPrefix
-- accepts what Encode has made.
pub decode-encode :
    (p : AddressPrefix) (address : Bytes)
    → EndsInColon p
    → NoColon address
    → (decode p (encode p address) ≡ address) × (check_prefix p (encode p address) ≡ true)
decode-encode p address ends h =
    let (front, e, l) = encode-parts p address ends in
    (
      rw e (unfold decode in rw (last_colon front address h, decode)),
      rw e (
          unfold check_prefix in
          rw (last_colon front address h, check_prefix) (rw l (bytes_eq_refl _))),
    )
