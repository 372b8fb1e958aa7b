-- ===== src/Utils/Text.antt =====
-- The helpers of src/utils/strings.h for separators, blanks and letters. A `char` above 127 is negative
-- in the source; the tests below fail on it in both readings.
pub mod Separators
pub mod Case
pub mod Numbers
use crosschain_agent.Prelude.{
  Bytes, ℕ, Bool, List, ◌∷◌, if◌then◌else◌, map, suc, true, [], ltb, leb, length, false, ◌+◌, ◌-◌,
  ◌||◌, not, ◌++◌, ◌&&◌, take, ◌==◌, zero, drop,
}

abbrev pub is_empty : Bytes → Bool
is_empty [] = true
is_empty (c ∷ s) = false

-- The loop of Strtok, with the characters that were seen since the last separator. At the end of the
-- text `pos` is npos, which is greater than any `newPos`: the last item is taken even if it is empty.
unfoldable pub strtok_loop : ℕ → Bytes → Bytes → List Bytes
strtok_loop separator item [] = item ∷ []
strtok_loop separator item (c ∷ s) =
    let rest = strtok_loop separator [] s in
    let longer = strtok_loop separator (item ++ c ∷ []) s in
    if c == separator then (if is_empty item then rest else item ∷ rest) else longer

unfoldable pub strtok : Bytes → ℕ → List Bytes
unfolding strtok_loop
strtok str separator = strtok_loop separator [] str

-- String::IsSpace
unfoldable pub is_space : ℕ → Bool
is_space c = ltb 0 c && ltb c 128 && (c == 32 || leb 9 c && leb c 13)

-- `str[i]`, for a position in the text.
abbrev char_at : Bytes → ℕ → ℕ
char_at [] i = 0
char_at (c ∷ s) zero = c
char_at (c ∷ s) (suc i) = char_at s i

-- nLeftPos: how many blanks come first.
unfoldable pub left_pos : Bytes → ℕ
unfolding is_space
left_pos [] = 0
left_pos (c ∷ s) = let rest = left_pos s in if is_space c then suc rest else 0

-- nRightPos: the loop goes down from a position while there are blanks, but not below 0.
unfoldable pub right_pos : Bytes → ℕ → ℕ → ℕ
unfolding is_space
right_pos str left zero = 0
right_pos str left (suc n) =
    let below = right_pos str left n in
    if leb left (suc n) && is_space (char_at str (suc n)) then below else suc n

-- `str.substr(left, right - left + 1)`, unless the positions have crossed.
abbrev between : Bytes → ℕ → ℕ → Bytes
between str left right = if ltb right left then [] else take (right - left + 1) (drop left str)

unfoldable pub trim_left : Bytes → Bytes
unfolding left_pos
trim_left str = if is_empty str then str else between str (left_pos str) (length str - 1)

unfoldable pub trim_right : Bytes → Bytes
unfolding right_pos
trim_right str = if is_empty str then str else between str 0 (right_pos str 0 (length str - 1))

unfoldable pub trim : Bytes → Bytes
unfolding left_pos right_pos
trim str =
    let left = left_pos str in
    if is_empty str then str else between str left (right_pos str left (length str - 1))

unfoldable pub can_display : Bytes → Bool
can_display [] = true
can_display (c ∷ s) = leb 32 c && leb c 127 && can_display s

abbrev pub is_upper : ℕ → Bool
is_upper c = leb b'A' c && leb c b'Z'

abbrev pub is_lower : ℕ → Bool
is_lower c = leb b'a' c && leb c b'z'

unfoldable pub is_contain_uppercase : Bytes → Bool
is_contain_uppercase [] = false
is_contain_uppercase (c ∷ s) = is_upper c || is_contain_uppercase s

unfoldable pub is_contain_lowercase : Bytes → Bool
is_contain_lowercase [] = false
is_contain_lowercase (c ∷ s) = is_lower c || is_contain_lowercase s

unfoldable pub is_integer : Bytes → Bool
is_integer [] = true
is_integer (c ∷ s) = leb b'0' c && leb c b'9' && is_integer s

unfoldable pub to_lower : Bytes → Bytes
to_lower str = map (λ c. if is_upper c then c + 32 else c) str

unfoldable pub to_upper : Bytes → Bytes
to_upper str = map (λ c. if is_lower c then c - 32 else c) str

unfoldable pub char_is_letter : ℕ → Bool
char_is_letter c = is_upper c || is_lower c

-- The loop of EqualsIgnoreCase; `abs(a - b)` is 32.
unfoldable pub same_letters : Bytes → Bytes → Bool
unfolding char_is_letter
same_letters [] t = true
same_letters (a ∷ s) [] = true
same_letters (a ∷ s) (b ∷ t) =
    let rest = same_letters s t in
    if a == b
    then rest
    else if not (char_is_letter a) || not (char_is_letter b)
    then false
    else if not (a == b + 32 || b == a + 32)
    then false
    else rest

unfoldable pub equals_ignore_case : Bytes → Bytes → Bool
unfolding same_letters
equals_ignore_case s₁ s₂ = if not (length s₁ == length s₂) then false else same_letters s₁ s₂
