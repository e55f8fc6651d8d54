-- ===== src/RateLimit/Window.antt =====
-- internal/ratelimit/ratelimit.go: no window ever holds more than the maximum of admitted events.
use dittobench_api.Base.{string_eq}
use dittobench_api.Base.{
  ℕ, suc, ◌+◌, ◌≤◌, ◌<◌, String, Bool, true, false, Option, none, some, List, [], ◌∷◌, ◌++◌, ◌≡◌,
  refl, sym, ◌∙◌, ap, ◌||◌, arith, ltb, leb, ◌==◌, text_beq_iff, length, keep, if◌then◌else◌,
  Bool-cases, inl, inr, ◌&&◌,
}
use mathlib.Core.Path.{subst₂}
use dittobench_api.Base.Assoc.{lookup, lookup-insert}
use dittobench_api.RateLimit.{Limiter, new, hits_of, is_fresh, admit, allow, after}

-- How many instants pass a test.
abbrev pub count : (ℕ → Bool) → List ℕ → ℕ
count p [] = 0
count p (t ∷ ts) = let rest = count p ts in if p t then suc rest else rest

-- The instants at which the calls of a key were admitted, newest first.
pub admitted : String → Limiter → List (String × ℕ) → List ℕ
admitted key l [] = []
admitted key l ((k, now) ∷ calls) =
    let older = admitted key l calls in
    if (k == key) && (allow k now (after l calls)).1 then now ∷ older else older

-- Newest first, no call is earlier than the ones behind it.
abbrev pub InOrder : ℕ → List (String × ℕ) → Type 0
InOrder now [] = Unit {0}
InOrder now ((k, t) ∷ calls) = (t ≤ now) × InOrder t calls

abbrev pub is_some {ℓ} : {A : Type ℓ} → Option A → Bool
is_some none = false
is_some (some a) = true

-- Whether t lies in the window that begins at x.
abbrev pub in_window : ℕ → ℕ → ℕ → Bool
in_window window x t = leb x t && ltb t (x + window)

count-append : (p : ℕ → Bool) (xs : List ℕ) (y : ℕ) → count p (xs ++ y ∷ []) ≡ count p (y ∷ xs)
count-append p [] y = refl
count-append p (x ∷ xs) y = ground (arith, count-append p xs y)

count-keep :
    (window now later : ℕ) (ts : List ℕ)
    → now ≤ later
    → count (is_fresh window later) (keep (is_fresh window now) ts)
      ≡ count (is_fresh window later) ts
count-keep window now later [] h = refl
count-keep window now later (t ∷ ts) h = ground (arith, count-keep window now later ts h)

length-keep-count :
    (window now : ℕ) (ts : List ℕ)
    → length (keep (is_fresh window now) ts) ≡ count (is_fresh window now) ts
length-keep-count window now [] = refl
length-keep-count window now (t ∷ ts) = ground (arith, length-keep-count window now ts)

count-in_window-le :
    (window now x : ℕ) (ts : List ℕ)
    → now < x + window
    → count (in_window window x) ts ≤ count (is_fresh window now) ts
count-in_window-le window now x [] h = omega arith
count-in_window-le window now x (t ∷ ts) h = ground (arith, count-in_window-le window now x ts h)

-- What the stored instants say of the admitted ones, from the instant `now` on.
record Faithful (maximum window now : ℕ) (log ts : List ℕ) : Type 0 where
  same :
      (later : ℕ)
      → now ≤ later
      → count (is_fresh window later) ts ≡ count (is_fresh window later) log
  bounded : (x : ℕ) → count (in_window window x) log ≤ maximum

module _ (maximum window now : ℕ) (log ts : List ℕ) (v : Faithful maximum window now log ts)
    (later : ℕ) (h : now ≤ later) where
  kept : List ℕ
  kept = keep (is_fresh window later) ts

  kept-length : length kept ≡ count (is_fresh window later) log
  unfolding kept
  kept-length = length-keep-count window later ts ∙ v.same later h

  refused-Faithful : Faithful maximum window later log kept
  unfolding kept
  refused-Faithful = record {
    same = λ y k. count-keep window later y ts k ∙ v.same y (omega arith);
    bounded = v.bounded;
  }

  admitted-Faithful :
      leb maximum (length kept) ≡ false
      → Faithful maximum window later (later ∷ log) (kept ++ later ∷ [])
  unfolding kept
  admitted-Faithful room = record {
    same = λ y k.
        count-append (is_fresh window y) kept later
        ∙ ground (arith, count-keep window later y ts k, v.same y (omega arith));
    bounded = λ x. ground (arith, v.bounded x, kept-length, count-in_window-le window later x log);
  }

hits_of-allow :
    (key k : String) (now : ℕ) (l : Limiter)
    → hits_of key (allow k now l).0
      ≡ (if k == key then (admit l.maximum l.window now (hits_of k l)).0 else hits_of key l)
unfolding hits_of allow
hits_of-allow key k now l =
    ground (arith, lookup-insert k key (admit l.maximum l.window now (hits_of k l)).0 l.hits)

later-Faithful :
    (maximum window now later : ℕ) (log ts : List ℕ)
    → now ≤ later
    → Faithful maximum window now log ts
    → Faithful maximum window later log ts
later-Faithful maximum window now later log ts h v = record {
  same = λ y k. v.same y (omega arith);
  bounded = v.bounded;
}

after-config :
    (l : Limiter) (calls : List (String × ℕ))
    → ((after l calls).maximum ≡ l.maximum) × ((after l calls).window ≡ l.window)
unfolding after allow
after-config l [] = (refl, refl)
after-config l ((k, now) ∷ calls) = after-config l calls

-- One step of the history at the key itself.
admit-Faithful :
    (maximum window now later : ℕ) (log ts : List ℕ)
    → Faithful maximum window now log ts
    → now ≤ later
    → Faithful maximum window later
        (if (admit maximum window later ts).1 then later ∷ log else log)
        (admit maximum window later ts).0
unfolding admit
admit-Faithful maximum window now later log ts v h =
    elim (Bool-cases (leb maximum (length (keep (is_fresh window later) ts)))) [
      | inl full ↦ rw full (unfold kept in refused-Faithful maximum window now log ts v later h)
      | inr room ↦
          rw room (unfold kept in admitted-Faithful maximum window now log ts v later h room)
    ]

allow-Faithful :
    (l : Limiter) (now : ℕ) (log : List ℕ) (key k : String) (t : ℕ)
    → Faithful l.maximum l.window now log (hits_of key l)
    → now ≤ t
    → Faithful l.maximum l.window t
        (if (k == key) && (allow k t l).1 then t ∷ log else log)
        (hits_of key (allow k t l).0)
unfolding allow
allow-Faithful l now log key k t v h = elim (Bool-cases (k == key)) [
  | inl hit ↦
      let e : k ≡ key = (text_beq_iff k key).0 hit in
      rw (hits_of-allow key k t l, hit, e) (admit-Faithful l.maximum l.window now t log _ v h)
  | inr miss ↦
      rw (hits_of-allow key k t l, miss) (later-Faithful l.maximum l.window now t log _ h v)
]

after-Faithful :
    (maximum window now : ℕ) (key : String) (calls : List (String × ℕ))
    → InOrder now calls
    → Faithful maximum window now
        (admitted key (new maximum window) calls)
        (hits_of key (after (new maximum window) calls))
unfolding admitted after new hits_of lookup
after-Faithful maximum window now key [] h = record {
  same = λ y k. refl;
  bounded = λ x. omega arith;
}
after-Faithful maximum window now key ((k, t) ∷ calls) (le, h) =
    let start = new maximum window in
    let l = after start calls in
    let log = admitted key start calls in
    let (same_maximum, same_window) = after-config start calls in
    let before =
      subst₂ (λ m w. Faithful m w t log (hits_of key l)) (sym same_maximum) (sym same_window)
        (after-Faithful maximum window t key calls h) in
    later-Faithful maximum window t now _ _ le (
      subst₂
        (λ m w.
          Faithful m w t (if (k == key) && (allow k t l).1 then t ∷ log else log)
            (hits_of key (allow k t l).0))
        same_maximum same_window (allow-Faithful l t log key k t before (omega arith)))

-- The answer of `admit`.
abbrev admit_answer : ℕ → ℕ → ℕ → List ℕ → Bool
admit_answer maximum window now ts = ltb (length (keep (is_fresh window now) ts)) maximum

allow_answer :
    (key : String) (now : ℕ) (l : Limiter)
    → (allow key now l).1 ≡ admit_answer l.maximum l.window now (hits_of key l)
unfolding allow admit
allow_answer key now l = ground arith

-- However calls of any keys are interleaved, as long as the clock does not run backwards: for each
-- key, every window of the limiter's length, wherever it begins, holds at most the maximum of
-- admitted calls.
pub window_bound :
    (maximum window now : ℕ) (key : String) (calls : List (String × ℕ))
    → InOrder now calls
    → (x : ℕ) → count (in_window window x) (admitted key (new maximum window) calls) ≤ maximum
window_bound maximum window now key calls h x =
    (after-Faithful maximum window now key calls h).bounded x

-- A call is admitted exactly when fewer than the maximum of the key's admitted calls lie less than a
-- window back: refused calls and calls of other keys do not count.
allow_iff_room :
    (maximum window now : ℕ) (key : String) (calls : List (String × ℕ))
    → InOrder now calls
    → let l = new maximum window in
      (allow key now (after l calls)).1
      ≡ ltb (count (is_fresh window now) (admitted key l calls)) maximum
unfolding new
allow_iff_room maximum window now key calls h =
    let l = new maximum window in
    let v = after-Faithful maximum window now key calls h in
    let (same_maximum, same_window) = after-config l calls in
    let size =
      length-keep-count window now (hits_of key (after l calls)) ∙ v.same now (omega arith) in
    allow_answer key now (after l calls)
    ∙ subst₂
        (λ m w.
          admit_answer m w now (hits_of key (after l calls))
          ≡ ltb (count (is_fresh window now) (admitted key l calls)) maximum)
        (sym same_maximum) (sym same_window) (ap (λ n. ltb n maximum) size)

pub called : String → List (String × ℕ) → Bool
called key [] = false
called key ((k, t) ∷ calls) = (k == key) || called key calls

-- No key is ever dropped from the table: after any calls it has an entry for exactly the keys that
-- were called, however long ago.
after_keeps_keys :
    (maximum window : ℕ) (key : String) (calls : List (String × ℕ))
    → is_some (lookup key (after (new maximum window) calls).hits) ≡ called key calls
unfolding after allow new called lookup
after_keeps_keys maximum window key [] = refl
after_keeps_keys maximum window key ((k, t) ∷ calls) =
    let l = after (new maximum window) calls in
    ground (
      arith,
      lookup-insert k key (admit l.maximum l.window t (hits_of k l)).0 l.hits,
      after_keeps_keys maximum window key calls,
    )
