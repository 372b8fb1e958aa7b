-- ===== src/Strings/Items.antt =====
-- Items joined by commas between two brackets, and how they are split again.
use crosschain_agent.Prelude.{
  ◌%◌, ◌^◌, ◌-◌, ℕ, ◌^◌, ◌<◌, ◌≡◌, ◌≢◌, refl, ap, ◌∙◌, Bytes, some, List, [], ◌∷◌, ◌++◌, length,
  length-append, take-append, All, arith, ◌+◌,
}
use crosschain_agent.Strings.{strip_brackets, push_front, getline_all}

-- `a,b,c`
unfoldable pub join : List Bytes → Bytes
join [] = []
join (item ∷ []) = item
join (item ∷ next ∷ items) = item ++ b',' ∷ join (next ∷ items)

-- `[a,b,c]`, as a contract's view function prints its results.
unfoldable pub render : List Bytes → Bytes
unfolding join
render items = b'[' ∷ join items ++ b']' ∷ []

abbrev pub NoComma : Bytes → Type 0
NoComma = All (λ c. c ≢ b',')

abbrev pub LastNonEmpty : List Bytes → Type 0
LastNonEmpty [] = Unit
LastNonEmpty (item ∷ []) = item ≢ []
LastNonEmpty (item ∷ next ∷ items) = LastNonEmpty (next ∷ items)

getline_item :
    (item s : Bytes) → NoComma item → getline_all (item ++ b',' ∷ s) ≡ item ∷ getline_all s
unfolding getline_all push_front
getline_item [] s h = refl
getline_item (c ∷ item) s h = ground (arith, getline_item item s h.1)

getline_last :
    (c : ℕ) (item : Bytes) → NoComma (c ∷ item) → getline_all (c ∷ item) ≡ (c ∷ item) ∷ []
unfolding getline_all push_front
getline_last c [] h = ground arith
getline_last c (d ∷ item) h = ground (arith, getline_last d item h.1)

-- Splitting gives back the items that were joined, if none has a comma and the last is not empty.
pub getline_all-join :
    (items : List Bytes) → All NoComma items → LastNonEmpty items → getline_all (join items) ≡ items
unfolding join
getline_all-join [] h l = unfold getline_all in refl
getline_all-join ([] ∷ []) h l = absurd (l refl)
getline_all-join ((c ∷ item) ∷ []) h l = getline_last c item h.0
getline_all-join (item ∷ next ∷ items) h l =
    getline_item item (join (next ∷ items)) h.0
    ∙ ap (◌∷◌ item) (getline_all-join (next ∷ items) h.1 l)

-- A text that ends in a comma has lost its last, empty item.
pub getline_all-trailing :
    (item : Bytes) → NoComma item → getline_all (join (item ∷ [] ∷ [])) ≡ item ∷ []
unfolding join
getline_all-trailing item h = getline_item item [] h ∙ (unfold getline_all in refl)

strip-brackets : (s : Bytes) → length s < 2 ^ 62 → strip_brackets (b'[' ∷ s ++ b']' ∷ []) ≡ some s
unfolding strip_brackets
strip-brackets s h = ground (arith, fits, take-append s (b']' ∷ []) size fits)
  where
    size : ℕ
    size = (length (b'[' ∷ s ++ b']' ∷ []) + 2 ^ 64 - 2) % 2 ^ 64

    fits : size ≡ length s
    fits = omega (arith, length-append s (b']' ∷ []))

pub strip_brackets-render :
    (items : List Bytes)
    → length (join items) < 2 ^ 62
    → strip_brackets (render items) ≡ some (join items)
unfolding render
strip_brackets-render items h = strip-brackets (join items) h
