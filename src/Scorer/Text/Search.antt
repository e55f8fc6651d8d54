-- ===== src/Scorer/Text/Search.antt =====
-- internal/scorer/scorer.go, containsNumberToken and containsBoundedPhrase: the loop finds a value
-- exactly where it stands by itself.
use dittobench_api.Base.{
  ℕ, zero, suc, ◌+◌, ◌-◌, ◌≤◌, ◌<◌, Bool, true, not, some, List, [], ◌∷◌, ◌++◌, ◌≡◌, refl, sym, ap,
  ◌∙◌, subst, ◌↔◌, inl, inr, arith, ◌==◌, leb, ◌||◌, nat_eq, nat_beq_iff, length, drop, drop-nil,
  drop-drop, drop-length-append, Bool-cases, Option-cases,
}
use native.Mathlib.Decide.{dec_lt, ℕ_discrete}
use dittobench_api.Scorer.Text.{
  num_attached, is_alnum, is_prefix, index, attached_at, is_bounded, scan, contains_number_token,
  contains_bounded_phrase,
}

abbrev occurs : List ℕ → List ℕ → ℕ → Bool
occurs text sub j = is_prefix sub (drop j text)

index_sound : (s sub : List ℕ) (k : ℕ) → index s sub ≡ some k → occurs s sub k ≡ true
unfolding index
index_sound [] sub k h = ground arith
index_sound (c ∷ s) sub k h = elim (Bool-cases (is_prefix sub (c ∷ s))) [
  | inl here ↦ ground (arith, here)
  | inr later ↦ elim (Option-cases (index s sub)) [
    | inl nowhere ↦ absurd (ground (arith, later, nowhere))
    | inr (m, found) ↦
        let next : suc m ≡ k = ground (arith, later, found) in
        subst (λ n. occurs (c ∷ s) sub n ≡ true) next (index_sound s sub m found)
  ]
]

-- The first occurrence is not after any other.
index_first :
    (s : List ℕ) (b : ℕ) (bs : List ℕ) (j : ℕ)
    → occurs s (b ∷ bs) j ≡ true
    → (k : ℕ) × (index s (b ∷ bs) ≡ some k) × (k ≤ j)
unfolding index
index_first [] b bs zero h = cc
index_first [] b bs (suc j) h = cc
index_first (c ∷ s) b bs zero h = (0, rw h refl, omega arith)
index_first (c ∷ s) b bs (suc j) h = elim (Bool-cases (is_prefix (b ∷ bs) (c ∷ s))) [
  | inl here ↦ (0, rw here refl, omega arith)
  | inr later ↦
      let (k, found, first) = index_first s b bs j h in
      (suc k, ground (arith, later, found), omega (arith, first))
]

drop_past : (s : List ℕ) (n : ℕ) → length s ≤ n → drop n s ≡ []
drop_past [] n h = drop-nil n
drop_past (c ∷ s) zero h = absurd (omega arith)
drop_past (c ∷ s) (suc n) h = drop_past s n (omega arith)

occurs-lt :
    (text : List ℕ) (b : ℕ) (bs : List ℕ) (j : ℕ) → occurs text (b ∷ bs) j ≡ true → j < length text
occurs-lt text b bs j h = elim (dec_lt j (length text)) [
  | yes inside ↦ inside
  | no past ↦ absurd (ground (arith, h, drop_past text j (omega (arith, past))))
]

module _ (attached : ℕ → Bool) (text : List ℕ) (b : ℕ) (bs : List ℕ) where
  abbrev found : ℕ → Bool
  found j = is_bounded attached text (length (b ∷ bs)) j

  scan_sound :
      (fuel i : ℕ)
      → scan attached text (b ∷ bs) fuel i ≡ true
      → (j : ℕ) × (occurs text (b ∷ bs) j ≡ true) × (found j ≡ true)
  unfolding scan
  scan_sound zero i h = cc
  scan_sound (suc fuel) i h = elim (Option-cases (index (drop i text) (b ∷ bs))) [
    | inl nowhere ↦ absurd (ground (arith, nowhere, h))
    | inr (k, there) ↦
        let here : occurs text (b ∷ bs) (k + i) ≡ true =
          subst (λ n. occurs text (b ∷ bs) n ≡ true) (omega arith)
            (subst (λ s. is_prefix (b ∷ bs) s ≡ true) (drop-drop k i text)
              (index_sound (drop i text) (b ∷ bs) k there)) in
        elim (Bool-cases (found (k + i))) [
          | inl stands ↦ (k + i, here, stands)
          | inr attaches ↦ scan_sound fuel (k + i + 1) (rw (there, attaches, scan) at h)
        ]
  ]

  scan_complete :
      (fuel i j : ℕ)
      → i ≤ j
      → occurs text (b ∷ bs) j ≡ true
      → found j ≡ true
      → length text < fuel + i
      → scan attached text (b ∷ bs) fuel i ≡ true
  unfolding scan
  scan_complete zero i j le h stands enough =
      absurd (omega (arith, le, enough, occurs-lt text b bs j h))
  scan_complete (suc fuel) i j le h stands enough =
      let here : occurs (drop i text) (b ∷ bs) (j - i) ≡ true =
        subst (λ s. is_prefix (b ∷ bs) s ≡ true) (sym (drop-drop (j - i) i text))
          (subst (λ n. occurs text (b ∷ bs) n ≡ true) (omega (arith, le)) h) in
      let (k, there, first) = index_first (drop i text) b bs (j - i) here in
      elim (Bool-cases (found (k + i))) [
        | inl right ↦ rw (there, right, scan) refl
        | inr attaches ↦ elim (ℕ_discrete (k + i) j) [
          | yes same ↦
              absurd (ground (arith, subst (λ n. found n ≡ true) (sym same) stands, attaches))
          | no other ↦
              rw (there, attaches, scan)
                (scan_complete fuel (k + i + 1) j (omega (arith, first, le, other)) h stands
                  (omega (arith, enough)))
        ]
      ]

-- The text holds the value, and what stands before and after it is not attached to it.
abbrev ends_apart : (ℕ → Bool) → List ℕ → Bool
ends_apart attached [] = true
ends_apart attached (c ∷ []) = not (attached c)
ends_apart attached (c ∷ d ∷ s) = ends_apart attached (d ∷ s)

abbrev begins_apart : (ℕ → Bool) → List ℕ → Bool
begins_apart attached [] = true
begins_apart attached (c ∷ s) = not (attached c)

abbrev pub StandsIn : (ℕ → Bool) → List ℕ → List ℕ → Type 0
StandsIn attached value text =
    (before : List ℕ) × (after : List ℕ) × (text ≡ before ++ (value ++ after))
    × (ends_apart attached before ≡ true)
    × (begins_apart attached after ≡ true)

is_prefix-append : (p s : List ℕ) → is_prefix p (p ++ s) ≡ true
is_prefix-append [] s = refl
is_prefix-append (c ∷ p) s = ground (arith, nat_beq_iff c c, is_prefix-append p s)

is_prefix-split : (p s : List ℕ) → is_prefix p s ≡ true → s ≡ p ++ drop (length p) s
is_prefix-split [] s h = refl
is_prefix-split (c ∷ p) [] h = cc
is_prefix-split (c ∷ p) (d ∷ s) h = ground (arith, nat_beq_iff c d, is_prefix-split p s)

take_before : ℕ → List ℕ → List ℕ
take_before zero s = []
take_before (suc n) [] = []
take_before (suc n) (c ∷ s) = c ∷ take_before n s

take_before-drop : (n : ℕ) (s : List ℕ) → s ≡ take_before n s ++ drop n s
unfolding take_before
take_before-drop zero s = refl
take_before-drop (suc n) [] = refl
take_before-drop (suc n) (c ∷ s) = ap (λ r. c ∷ r) (take_before-drop n s)

-- The byte before a position is the last of the part before it.
last_before :
    (attached : ℕ → Bool) (before after : List ℕ)
    → ends_apart attached before
      ≡ (length before == 0 || not (attached_at attached (before ++ after) (length before - 1)))
last_before attached [] after = refl
last_before attached (c ∷ []) after = ground arith
last_before attached (c ∷ d ∷ s) after = ground (arith, last_before attached (d ∷ s) after)

first_after :
    (attached : ℕ → Bool) (text : List ℕ) (j : ℕ)
    → begins_apart attached (drop j text)
      ≡ (leb (length text) j || not (attached_at attached text j))
first_after attached [] j = ground (arith, drop-nil {A = ℕ} j)
first_after attached (c ∷ s) zero = ground arith
first_after attached (c ∷ s) (suc j) = ground (arith, first_after attached s j)

length-take_before : (n : ℕ) (s : List ℕ) → n ≤ length s → length (take_before n s) ≡ n
unfolding take_before
length-take_before zero s h = refl
length-take_before (suc n) [] h = absurd (omega arith)
length-take_before (suc n) (c ∷ s) h = ap (λ m. suc m) (length-take_before n s (omega arith))

module _ (attached : ℕ → Bool) (text : List ℕ) (b : ℕ) (bs : List ℕ) where
  abbrev value : List ℕ
  value = b ∷ bs

  stands_at :
      (j : ℕ)
      → occurs text value j ≡ true
      → is_bounded attached text (length value) j ≡ true
      → StandsIn attached value text
  stands_at j here apart =
      let inside = occurs-lt text b bs j here in
      let before = take_before j text in
      let after = drop (length value) (drop j text) in
      let size : length before ≡ j = length-take_before j text (omega (arith, inside)) in
      let whole : text ≡ before ++ drop j text = take_before-drop j text in
      let front =
        last_before attached before (drop j text)
        ∙ ap (λ t. length before == 0 || not (attached_at attached t (length before - 1)))
            (sym whole)
        ∙ ap (λ n. n == 0 || not (attached_at attached text (n - 1))) size in
      let back =
        ap (λ t. begins_apart attached t) (drop-drop (length value) j text)
        ∙ first_after attached text (j + length value) in
      (
        before,
        after,
        whole ∙ ap (λ r. before ++ r) (is_prefix-split value (drop j text) here),
        front ∙ ground (arith, apart),
        back ∙ ground (arith, apart),
      )

  stands_here :
      (before after : List ℕ)
      → text ≡ before ++ (value ++ after)
      → ends_apart attached before ≡ true
      → begins_apart attached after ≡ true
      → (occurs text value (length before) ≡ true)
        × (is_bounded attached text (length value) (length before) ≡ true)
  stands_here before after whole front back =
      let rest : drop (length before) text ≡ value ++ after =
        ap (drop (length before)) whole ∙ drop-length-append before (value ++ after) in
      let tail : drop (length before + length value) text ≡ after =
        sym (drop-drop (length value) (length before) text)
        ∙ ap (drop (length value)) rest
        ∙ drop-length-append value after in
      let one = sym (last_before attached before (value ++ after)) ∙ front in
      let left : (length before == 0 || not (attached_at attached text (length before - 1)))
          ≡ true =
        ap (λ t. length before == 0 || not (attached_at attached t (length before - 1))) whole
        ∙ one in
      let right =
        sym (first_after attached text (length before + length value))
        ∙ ap (begins_apart attached) tail
        ∙ back in
      (ap (is_prefix value) rest ∙ is_prefix-append value after, ground (arith, left, right))

  scan_iff : (scan attached text value (length text + 1) 0 ≡ true) ↔ StandsIn attached value text
  scan_iff = (
    λ h.
        let (j, here, apart) = scan_sound attached text b bs (length text + 1) 0 h in
        stands_at j here apart,
    λ s.
        let (before, after, whole, front, back) = s in
        let (here, apart) = stands_here before after whole front back in
        scan_complete attached text b bs (length text + 1) 0 (length before) (omega arith) here
          apart (omega arith),
  )

-- A value that is not empty is found in a text exactly when it stands there by itself: a number with
-- no digit, point, comma or sign beside it, a phrase with no letter or digit beside it. The loop has
-- enough fuel.
pub contains_value_iff :
    (text : List ℕ) (b : ℕ) (bs : List ℕ)
    → ((contains_number_token text (b ∷ bs) ≡ true) ↔ StandsIn num_attached (b ∷ bs) text)
      × ((contains_bounded_phrase text (b ∷ bs) ≡ true) ↔ StandsIn is_alnum (b ∷ bs) text)
unfolding contains_number_token contains_bounded_phrase
contains_value_iff text b bs = (scan_iff num_attached text b bs, scan_iff is_alnum text b bs)
