-- ===== src/Scorer/Text/Separators.antt =====
-- internal/scorer/scorer.go, stripSeparators: which bytes of a text are taken out.
use dittobench_api.Base.{
  ℕ, Bool, true, false, not, List, [], ◌∷◌, ◌++◌, ◌≡◌, refl, ap, ◌∙◌, arith, nat_eq, ◌==◌, ◌||◌,
  ◌&&◌, Bool-cases, inl, inr,
}
use dittobench_api.Scorer.Text.{is_digit, starts_with_digit, strip_after, strip_separators}

abbrev separator : Bool → ℕ
separator true = b','
separator false = b' '

-- A comma or a space with a digit behind it.
abbrev splits : List ℕ → Bool
splits [] = false
splits (c ∷ s) = (c == b',' || c == b' ') && starts_with_digit s

-- No comma or space stands between two digits.
unfoldable pub is_clean : List ℕ → Bool
is_clean [] = true
is_clean (c ∷ s) = not (is_digit c && splits s) && is_clean s

-- Whether the last byte is a digit, or what is said of the empty text.
unfoldable pub ends_digit : Bool → List ℕ → Bool
ends_digit before [] = before
ends_digit before (c ∷ s) = ends_digit (is_digit c) s

-- Chunks with a comma or a space between each and the next; and without these.
abbrev pub joined : List ℕ → List (Bool × List ℕ) → List ℕ
joined chunk [] = chunk
joined chunk ((comma, next) ∷ rest) = chunk ++ (separator comma ∷ joined next rest)

abbrev pub plain : List ℕ → List (Bool × List ℕ) → List ℕ
plain chunk [] = chunk
plain chunk ((comma, next) ∷ rest) = chunk ++ plain next rest

-- The commas and spaces between the chunks are all that stand between two digits.
abbrev pub IsCut : List ℕ → List (Bool × List ℕ) → Type 0
IsCut chunk [] = is_clean chunk ≡ true
IsCut chunk ((comma, next) ∷ rest) =
    (is_clean chunk ≡ true)
    × (ends_digit false chunk ≡ true)
    × (starts_with_digit next ≡ true)
    × IsCut next rest

strip_after_clean :
    (digit : Bool) (s : List ℕ)
    → is_clean s ≡ true
    → (digit && splits s) ≡ false
    → strip_after digit s ≡ s
unfolding strip_after is_clean
strip_after_clean digit [] clean apart = refl
strip_after_clean digit (c ∷ s) clean apart =
    ground (arith, clean, apart, strip_after_clean (is_digit c) s)

strip_after-separator :
    (comma : Bool) (rest : List ℕ)
    → starts_with_digit rest ≡ true
    → strip_after true (separator comma ∷ rest) ≡ strip_after false rest
unfolding strip_after is_digit
strip_after-separator true rest starts = ground (arith, starts)
strip_after-separator false rest starts = ground (arith, starts)

starts_within :
    (comma : Bool) (s rest : List ℕ)
    → starts_with_digit (s ++ (separator comma ∷ rest)) ≡ starts_with_digit s
unfolding is_digit
starts_within true [] rest = refl
starts_within false [] rest = refl
starts_within comma (c ∷ s) rest = refl

keeps_byte :
    (digit : Bool) (c : ℕ) (s : List ℕ)
    → (digit && splits (c ∷ s)) ≡ false
    → strip_after digit (c ∷ s) ≡ c ∷ strip_after (is_digit c) s
unfolding strip_after
keeps_byte digit c s apart = ground (arith, apart)

strip_after_chunk :
    (digit comma : Bool) (s rest : List ℕ)
    → is_clean s ≡ true
    → (digit && splits s) ≡ false
    → ends_digit digit s ≡ true
    → starts_with_digit rest ≡ true
    → strip_after digit (s ++ (separator comma ∷ rest)) ≡ s ++ strip_after false rest
unfolding is_clean ends_digit
strip_after_chunk true comma [] rest clean apart ends starts =
    strip_after-separator comma rest starts
strip_after_chunk false comma [] rest clean apart ends starts = cc
strip_after_chunk digit comma (c ∷ s) rest clean apart ends starts =
    let within = starts_within comma s rest in
    let later = strip_after_chunk (is_digit c) comma s rest in
    keeps_byte digit c (s ++ (separator comma ∷ rest)) (ground (arith, apart, within))
    ∙ ap (λ t. c ∷ t) (later (ground (arith, clean)) (ground (arith, clean)) ends starts)

starts_with_digit-joined :
    (chunk : List ℕ) (rest : List (Bool × List ℕ))
    → starts_with_digit chunk ≡ true
    → starts_with_digit (joined chunk rest) ≡ true
starts_with_digit-joined [] rest h = cc
starts_with_digit-joined (c ∷ s) [] h = h
starts_with_digit-joined (c ∷ s) ((comma, next) ∷ rest) h = h

-- If a text is cut at every comma and every space that stands between two digits, and nowhere else,
-- then what remains of the text is its chunks, unchanged and in their order. So the digits of a number
-- come back however they are grouped, a separator with anything but a digit beside it stays, and two
-- numbers with nothing but one comma or one space between them become one.
pub strip_separators-joined :
    (chunk : List ℕ) (rest : List (Bool × List ℕ))
    → IsCut chunk rest
    → strip_separators (joined chunk rest) ≡ plain chunk rest
unfolding strip_separators
strip_separators-joined chunk [] clean = strip_after_clean false chunk clean refl
strip_separators-joined chunk ((comma, next) ∷ rest) (clean, ends, starts, cut) =
    strip_after_chunk false comma chunk (joined next rest) clean refl ends
      (starts_with_digit-joined next rest starts)
    ∙ ap (λ s. chunk ++ s) (strip_separators-joined next rest cut)

-- A cut of a text; its first chunk begins as the text does.
record Cut (s : List ℕ) : Type 0 where
  chunk : List ℕ
  rest : List (Bool × List ℕ)
  joined_eq : joined chunk rest ≡ s
  is_cut : IsCut chunk rest
  starts_eq : starts_with_digit chunk ≡ starts_with_digit s
  splits_eq : splits chunk ≡ splits s

ends_digit_any : (digit : Bool) (s : List ℕ) → ends_digit false s ≡ true → ends_digit digit s ≡ true
unfolding ends_digit
ends_digit_any digit [] h = cc
ends_digit_any digit (c ∷ s) h = h

cons-IsCut :
    (c : ℕ) (chunk : List ℕ) (rest : List (Bool × List ℕ))
    → (is_digit c && splits chunk) ≡ false
    → IsCut chunk rest
    → IsCut (c ∷ chunk) rest
unfolding is_clean ends_digit
cons-IsCut c chunk [] apart clean = ground (arith, apart, clean)
cons-IsCut c chunk ((comma, next) ∷ rest) apart (clean, ends, starts, cut) =
    (ground (arith, apart, clean), ends_digit_any (is_digit c) chunk ends, starts, cut)

joined_cons :
    (c : ℕ) (chunk : List ℕ) (rest : List (Bool × List ℕ))
    → joined (c ∷ chunk) rest ≡ c ∷ joined chunk rest
joined_cons c chunk [] = refl
joined_cons c chunk ((comma, next) ∷ rest) = refl

extend : (c : ℕ) (s : List ℕ) → (is_digit c && splits s) ≡ false → Cut s → Cut (c ∷ s)
extend c s apart k = record {
  chunk = c ∷ k.chunk;
  rest = k.rest;
  joined_eq = joined_cons c k.chunk k.rest ∙ ap (λ t. c ∷ t) k.joined_eq;
  is_cut = cons-IsCut c k.chunk k.rest (ground (arith, apart, k.splits_eq)) k.is_cut;
  starts_eq = refl;
  splits_eq = ap (λ b. (c == b',' || c == b' ') && b) k.starts_eq;
}

separator-eq : (d : ℕ) → (d == b',' || d == b' ') ≡ true → separator (d == b',') ≡ d
separator-eq d h = ground (arith, h)

break : (c d : ℕ) (s : List ℕ) → (is_digit c && splits (d ∷ s)) ≡ true → Cut s → Cut (c ∷ d ∷ s)
unfolding is_clean ends_digit is_digit
break c d s parted k = record {
  chunk = c ∷ [];
  rest = (d == b',', k.chunk) ∷ k.rest;
  joined_eq =
      ap (λ t. c ∷ t)
        (ap (λ e. e ∷ joined k.chunk k.rest) (separator-eq d (ground (arith, parted)))
          ∙ ap (λ t. d ∷ t) k.joined_eq);
  is_cut = (
    ground (arith, parted),
    ground (arith, parted),
    ground (arith, parted, k.starts_eq),
    k.is_cut,
  );
  starts_eq = refl;
  splits_eq = ground (arith, parted);
}

-- Every text can be cut so.
every_text-Cut : (s : List ℕ) → Cut s
unfolding is_clean
every_text-Cut [] = record {
  chunk = [];
  rest = [];
  joined_eq = refl;
  is_cut = refl;
  starts_eq = refl;
  splits_eq = refl;
}
every_text-Cut (c ∷ []) = extend c [] (ground arith) (every_text-Cut [])
every_text-Cut (c ∷ d ∷ s) = elim (Bool-cases (is_digit c && splits (d ∷ s))) [
  | inl parted ↦ break c d s parted (every_text-Cut s)
  | inr apart ↦ extend c (d ∷ s) apart (every_text-Cut (d ∷ s))
]
