-- ===== src/RateLimit.antt =====
-- internal/ratelimit/ratelimit.go: the sliding-window limiter. Instants are numbers, read under the
-- lock; a maximum of 0 or less is 0. `t.After(now.Add(-window))` is written now < t + window.
pub mod Window
mod Examples
use dittobench_api.Base.{
  ℕ, ◌+◌, String, Bool, true, false, none, some, List, [], ◌∷◌, ◌++◌, ltb, leb, length, keep,
  if◌then◌else◌,
}
use dittobench_api.Base.Assoc.{Assoc, lookup, insert}

pub record Limiter : Type 0 where
  pub maximum : ℕ
  pub window : ℕ
  pub hits : Assoc (List ℕ)

pub new : ℕ → ℕ → Limiter
new maximum window = record { maximum = maximum; window = window; hits = [] }

-- l.hits[key]: nil without an entry.
pub hits_of : String → Limiter → List ℕ
hits_of key l = elim (lookup key l.hits) [ none ↦ [] | some ts ↦ ts ]

-- Whether an event at t still counts.
abbrev pub is_fresh : ℕ → ℕ → ℕ → Bool
is_fresh window now t = ltb now (t + window)

-- The new timestamps of the key, and the answer.
pub admit : ℕ → ℕ → ℕ → List ℕ → List ℕ × Bool
admit maximum window now ts =
    let kept = keep (is_fresh window now) ts in
    if leb maximum (length kept) then (kept, false) else (kept ++ now ∷ [], true)

pub allow : String → ℕ → Limiter → Limiter × Bool
allow key now l =
    let (ts, ok) = admit l.maximum l.window now (hits_of key l) in
    (record l { hits = insert key ts l.hits }, ok)

-- A history of calls, each a key and an instant, newest first: the limiter after it, and the
-- instants of the admitted calls of one key.
pub after : Limiter → List (String × ℕ) → Limiter
after l [] = l
after l ((key, now) ∷ calls) = (allow key now (after l calls)).0
