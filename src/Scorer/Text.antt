-- ===== src/Scorer/Text.antt =====
-- internal/scorer/scorer.go: how values are looked for in answers and arguments. A text is the list
-- of its bytes, and ASCII.
pub mod Search
pub mod Separators
use dittobench_api.Base.{
  ℕ, zero, suc, ◌+◌, ◌-◌, Bool, true, false, not, Option, none, some, List, [], ◌∷◌, ◌++◌, map,
  ◌==◌, leb, ◌&&◌, ◌||◌, nat_eq, if◌then◌else◌, length, any, drop, get_elem?,
}
use mathlib.Core.List.{reverse}
use dittobench_api.Base.Assoc.{option_map}
use dittobench_api.Base.Text.{bytes_of, is_space, trim_space, same_text, lower}

unfoldable pub is_digit : ℕ → Bool
is_digit b = leb b'0' b && leb b b'9'

unfoldable pub is_alnum : ℕ → Bool
unfolding is_digit
is_alnum b = (leb b'a' b && leb b b'z') || (leb b'A' b && leb b b'Z') || is_digit b

unfoldable pub num_attached : ℕ → Bool
unfolding is_digit
num_attached b = is_digit b || b == b'.' || b == b',' || b == b'-' || b == b'+'

abbrev pub is_prefix : List ℕ → List ℕ → Bool
is_prefix [] s = true
is_prefix (p ∷ ps) [] = false
is_prefix (p ∷ ps) (c ∷ s) = p == c && is_prefix ps s

-- strings.Index: where the text first occurs.
unfoldable pub index : List ℕ → List ℕ → Option ℕ
index [] sub = if is_prefix sub [] then some 0 else none
index (c ∷ s) sub =
    let rest = option_map suc (index s sub) in if is_prefix sub (c ∷ s) then some 0 else rest

-- Whether text[i] is there and attached to what stands beside it.
abbrev pub attached_at : (ℕ → Bool) → List ℕ → ℕ → Bool
attached_at attached text i = elim (get_elem? text i) [ none ↦ false | some b ↦ attached b ]

-- Whether the occurrence of a text of some length at `j` stands by itself.
abbrev pub is_bounded : (ℕ → Bool) → List ℕ → ℕ → ℕ → Bool
is_bounded attached text size j =
    (j == 0 || not (attached_at attached text (j - 1)))
    && (leb (length text) (j + size) || not (attached_at attached text (j + size)))

-- The loop that containsNumberToken and containsBoundedPhrase share, from a position on.
unfoldable pub scan : (ℕ → Bool) → List ℕ → List ℕ → ℕ → ℕ → Bool
scan attached text sub zero i = false
scan attached text sub (suc fuel) i = elim (index (drop i text) sub) [
  | none ↦ false
  | some k ↦ elim (is_bounded attached text (length sub) (k + i)) [
    | true ↦ true
    | false ↦ scan attached text sub fuel (k + i + 1)
  ]
]

unfoldable pub contains_number_token : List ℕ → List ℕ → Bool
contains_number_token text num = scan num_attached text num (length text + 1) 0

unfoldable pub contains_bounded_phrase : List ℕ → List ℕ → Bool
contains_bounded_phrase text phrase = scan is_alnum text phrase (length text + 1) 0

-- The loop of isPureNumber, after some bytes: whether there are any, and a separator among them.
unfoldable pub pure_from : Bool → Bool → List ℕ → Bool
pure_from begun seen [] = begun
pure_from begun seen (c ∷ []) = is_digit c
pure_from begun seen (c ∷ d ∷ s) =
    let digit = pure_from true seen (d ∷ s) in
    let separator = pure_from true true (d ∷ s) in
    if is_digit c
    then digit
    else if (c == b'.' || c == b',') && not seen && begun
    then separator
    else false

unfoldable pub is_pure_number : List ℕ → Bool
unfolding pure_from
is_pure_number s = pure_from false false s

abbrev pub starts_with_digit : List ℕ → Bool
starts_with_digit [] = false
starts_with_digit (c ∷ s) = is_digit c

-- The loop of stripSeparators, after a byte that was a digit or not.
unfoldable pub strip_after : Bool → List ℕ → List ℕ
strip_after digit [] = []
strip_after digit (c ∷ s) =
    let rest = strip_after (is_digit c) s in
    if (c == b',' || c == b' ') && digit && starts_with_digit s then rest else c ∷ rest

unfoldable pub strip_separators : List ℕ → List ℕ
unfolding strip_after
strip_separators s = strip_after false s

-- strings.Fields, after the bytes of a word in reverse.
abbrev close_word : List ℕ → List (List ℕ) → List (List ℕ)
close_word [] words = words
close_word (c ∷ w) words = reverse (c ∷ w) ∷ words

unfoldable pub fields_after : List ℕ → List ℕ → List (List ℕ)
fields_after w [] = close_word w []
fields_after w (c ∷ s) =
    let ends = fields_after [] s in
    let goes_on = fields_after (c ∷ w) s in if is_space c then close_word w ends else goes_on

unfoldable pub fields : List ℕ → List (List ℕ)
unfolding fields_after is_space
fields s = fields_after [] s

unfoldable pub trim_front : List ℕ → List ℕ → List ℕ
trim_front cutset [] = []
trim_front cutset (c ∷ s) =
    let rest = trim_front cutset s in if any (λ d. d == c) cutset then rest else c ∷ s

-- strings.Trim
unfoldable pub trim : List ℕ → List ℕ → List ℕ
unfolding trim_front
trim cutset s = reverse (trim_front cutset (reverse (trim_front cutset s)))

abbrev join_words : List (List ℕ) → List ℕ
join_words [] = []
join_words (w ∷ []) = w
join_words (w ∷ v ∷ words) = w ++ b' ' ∷ join_words (v ∷ words)

unfoldable pub normalize_answer : List ℕ → List ℕ
unfolding fields trim trim_space lower
normalize_answer s = join_words (fields (trim (bytes_of "\"'.,!?;:") (map lower (trim_space s))))

unfoldable pub answer_carries_value : List ℕ → List ℕ → Bool
unfolding strip_separators normalize_answer contains_number_token
answer_carries_value answer needle =
    let want = strip_separators needle in
    if same_text want []
    then false
    else contains_number_token (strip_separators (normalize_answer answer)) want
