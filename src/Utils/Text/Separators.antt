-- ===== src/Utils/Text/Separators.antt =====
-- Strtok: the items of a text between its separators.
use crosschain_agent.Prelude.{
  Bytes, ℕ, List, All, ◌≡◌, ◌∷◌, ◌++◌, ◌≢◌, false, [], Bool-cases, append-nil, ◌==◌, inl, refl,
  arith, inr, ap, append_assoc, subst, ◌∙◌, true,
}
use crosschain_agent.Utils.Text.{is_empty, strtok_loop, strtok}

-- A text that is not empty and has no separator.
abbrev pub IsItem : ℕ → Bytes → Type 0
IsItem separator item = (is_empty item ≡ false) × All (λ c. c ≢ separator) item

-- What a text falls into: items, and a last one that has no separator either, but may be empty.
abbrev pub IsTokens : ℕ → List Bytes → Type 0
IsTokens separator [] = ⊥
IsTokens separator (item ∷ []) = All (λ c. c ≢ separator) item
IsTokens separator (item ∷ next ∷ items) = IsItem separator item × IsTokens separator (next ∷ items)

cons-IsTokens :
    (separator : ℕ) (item : Bytes) (items : List Bytes)
    → IsItem separator item
    → IsTokens separator items
    → IsTokens separator (item ∷ items)
cons-IsTokens separator item [] h more = elim more [ ]
cons-IsTokens separator item (next ∷ items) h more = (h, more)

-- The items, with a separator between each two.
unfoldable pub join_with : ℕ → List Bytes → Bytes
join_with separator [] = []
join_with separator (item ∷ []) = item
join_with separator (item ∷ next ∷ items) = item ++ separator ∷ join_with separator (next ∷ items)

All-append : (P : ℕ → Type 0) (s : Bytes) (c : ℕ) → All P s → P c → All P (s ++ c ∷ [])
All-append P [] c h p = (p, tt)
All-append P (d ∷ s) c h p = (h.0, All-append P s c h.1 p)

longer-is_empty : (s : Bytes) (c : ℕ) → is_empty (s ++ c ∷ []) ≡ false
longer-is_empty [] c = refl
longer-is_empty (d ∷ s) c = refl

-- The last item of a loop is found whatever came before: there is always one.
strtok_loop-IsTokens :
    (separator : ℕ) (item s : Bytes)
    → All (λ c. c ≢ separator) item
    → IsTokens separator (strtok_loop separator item s)
unfolding strtok_loop
strtok_loop-IsTokens separator item [] plain = plain
strtok_loop-IsTokens separator item (c ∷ s) plain = elim (Bool-cases (c == separator)) [
  | inl at_end ↦ rw at_end (elim (Bool-cases (is_empty item)) [
    | inl e ↦ rw e (strtok_loop-IsTokens separator [] s tt)
    | inr e ↦
        rw e (cons-IsTokens separator item _ (e, plain) (strtok_loop-IsTokens separator [] s tt))
  ])
  | inr inside ↦ rw inside (
      strtok_loop-IsTokens separator (item ++ c ∷ []) s
        (All-append _ item c plain (λ e. ground (arith, e, inside))))
]

-- The characters of an item are collected one after the other.
strtok_loop-append :
    (separator : ℕ) (item front s : Bytes)
    → All (λ c. c ≢ separator) front
    → strtok_loop separator item (front ++ s) ≡ strtok_loop separator (item ++ front) s
unfolding strtok_loop
strtok_loop-append separator item [] s plain = rw append-nil refl
strtok_loop-append separator item (c ∷ front) s plain =
    let inside : (c == separator) ≡ false = ground (arith, plain.0) in
    rw (inside, strtok_loop-append separator (item ++ c ∷ []) front s plain.1)
      (ap (λ x. strtok_loop separator x s) (append_assoc item (c ∷ []) front))

strtok-join_with :
    (separator : ℕ) (items : List Bytes)
    → IsTokens separator items
    → strtok (join_with separator items) separator ≡ items
unfolding strtok strtok_loop join_with
strtok-join_with separator [] h = elim h [ ]
strtok-join_with separator (item ∷ []) h =
    subst (λ x. strtok_loop separator [] x ≡ item ∷ []) (append-nil item)
      (strtok_loop-append separator [] item [] h)
strtok-join_with separator (item ∷ next ∷ items) h =
    let own : (separator == separator) ≡ true = ground arith in
    strtok_loop-append separator [] item _ h.0.1
    ∙ rw (strtok_loop, own, h.0.0) (ap (◌∷◌ item) (strtok-join_with separator (next ∷ items) h.1))

-- Strtok finds at least one item; no item has the separator, and every item but the last one is not
-- empty. It finds the same items again in the text that has them with one separator between each two.
-- Conversely, of any items of this kind joined in this way Strtok finds exactly those.
pub strtok_lem :
    (str : Bytes) (separator : ℕ) (items : List Bytes)
    → IsTokens separator items
    → IsTokens separator (strtok str separator)
      × (strtok (join_with separator (strtok str separator)) separator ≡ strtok str separator)
      × (strtok (join_with separator items) separator ≡ items)
unfolding strtok
strtok_lem str separator items h =
    let found : IsTokens separator (strtok str separator) =
      strtok_loop-IsTokens separator [] str tt in
    (found, strtok-join_with separator _ found, strtok-join_with separator items h)
