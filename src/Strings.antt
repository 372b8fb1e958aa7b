-- ===== src/Strings.antt =====
-- What the agent uses of src/utils/strings.h, and of `std::string` and `std::getline`.
pub mod Number
pub mod Hex
pub mod Items
use crosschain_agent.Prelude.{
  ℕ, zero, suc, ◌+◌, ◌-◌, ◌*◌, ◌/◌, ◌%◌, ◌^◌, Bytes, ltb, leb, ◌==◌, ◌||◌, ◌&&◌, Bool, Option, none,
  some, List, [], ◌∷◌, ◌++◌, length, take, drop, if◌then◌else◌, ℤ, pos, negsuc,
}

-- `s.substr(at, count)`: `none` is the exception `std::out_of_range`.
unfoldable pub substr : Bytes → ℕ → ℕ → Option Bytes
substr s at count = if ltb (length s) at then none else some (take count (drop at s))

-- `s.substr(1, s.size() - 2)`; the difference is of type `size_t`, so it wraps.
unfoldable pub strip_brackets : Bytes → Option Bytes
unfolding substr
strip_brackets s = substr s 1 ((length s + 2 ^ 64 - 2) % 2 ^ 64)

-- A character in front of the first item, which is new if there is none.
unfoldable pub push_front : ℕ → List Bytes → List Bytes
push_front c [] = (c ∷ []) ∷ []
push_front c (item ∷ items) = (c ∷ item) ∷ items

-- `while (std::getline(ss, item, ',')) items.push_back(item);`. What follows the last separator is an
-- item only if it is not empty.
unfoldable pub getline_all : Bytes → List Bytes
unfolding push_front
getline_all [] = []
getline_all (c ∷ s) = let rest = getline_all s in if c == b',' then [] ∷ rest else push_front c rest

is_space : ℕ → Bool
is_space c = c == 32 || leb 9 c && leb c 13

skip_spaces : Bytes → Bytes
skip_spaces [] = []
skip_spaces (c ∷ s) = let rest = skip_spaces s in if is_space c then rest else c ∷ s

-- The number that the leading digits denote, after those that were read into `n`.
read_digits : ℕ → Bytes → ℕ
read_digits n [] = n
read_digits n (c ∷ s) =
    let rest = read_digits (n * 10 + (c - 48)) s in if leb 48 c && leb c 57 then rest else n

-- `none` is a value that the type of `bits` bits cannot hold, for which `atoi` and `atol` are undefined.
in_range : ℕ → Bool → ℕ → Option ℤ
in_range bits Bool.false n = if ltb n (2 ^ (bits - 1)) then some (pos n) else none
in_range bits Bool.true zero = some (pos zero)
in_range bits Bool.true (suc n) = if ltb n (2 ^ (bits - 1)) then some (negsuc n) else none

read_number : ℕ → Bytes → Option ℤ
read_number bits [] = in_range bits Bool.false 0
read_number bits (c ∷ s) =
    if c == b'-'
    then in_range bits Bool.true (read_digits 0 s)
    else if c == b'+'
    then in_range bits Bool.false (read_digits 0 s)
    else in_range bits Bool.false (read_digits 0 (c ∷ s))

unfoldable pub stoi : Bytes → Option ℤ
unfolding is_space skip_spaces read_digits in_range read_number
stoi [] = some (pos 0)
stoi (c ∷ s) = read_number 32 (skip_spaces (c ∷ s))

unfoldable pub stol : Bytes → Option ℤ
unfolding is_space skip_spaces read_digits in_range read_number
stol [] = some (pos 0)
stol (c ∷ s) = read_number 64 (skip_spaces (c ∷ s))

-- The decimal digits of `n`, written with at most `suc fuel` digits.
print_digits : ℕ → ℕ → Bytes
print_digits zero n = (48 + n % 10) ∷ []
print_digits (suc fuel) n =
    let front = print_digits fuel (n / 10) in
    if ltb n 10 then (48 + n) ∷ [] else front ++ (48 + n % 10) ∷ []

-- `%ld` and `%d`.
unfoldable pub to_string : ℤ → Bytes
unfolding print_digits
to_string (pos n) = print_digits n n
to_string (negsuc n) = b'-' ∷ print_digits (suc n) (suc n)

hex_char : ℕ → ℕ
hex_char d = if leb d 9 then d + b'0' else d - 10 + b'a'

unfoldable pub bin_to_hex_string : Bytes → Bytes
unfolding hex_char
bin_to_hex_string [] = []
bin_to_hex_string (item ∷ value) =
    hex_char (item / 16) ∷ hex_char (item % 16) ∷ bin_to_hex_string value

hex_value : ℕ → Option ℕ
hex_value c =
    if leb b'0' c && leb c b'9'
    then some (c - b'0')
    else if leb b'a' c && leb c b'f'
    then some (c - b'a' + 10)
    else if leb b'A' c && leb c b'F'
    then some (c - b'A' + 10)
    else none

push_byte : Option ℕ → Option ℕ → Option Bytes → Option Bytes
push_byte (some high) (some low) (some rest) = some ((high * 16 + low) ∷ rest)
push_byte (some high) (some low) none = none
push_byte (some high) none rest = none
push_byte none low rest = none

hex_pairs : Bytes → Option Bytes
hex_pairs [] = some []
hex_pairs (h ∷ []) = none
hex_pairs (h ∷ l ∷ rest) = push_byte (hex_value h) (hex_value l) (hex_pairs rest)

or_empty : Option Bytes → Bytes
or_empty none = []
or_empty (some s) = s

-- A text that is not hexadecimal gives the empty text.
unfoldable pub hex_string_to_bin : Bytes → Bytes
unfolding hex_value push_byte hex_pairs or_empty
hex_string_to_bin s = if length s % 2 == 0 then or_empty (hex_pairs s) else []
