-- ===== src/RateLimit/Examples.antt =====
-- Runs of the limiter, and its theorems at them.
use dittobench_api.Base.{ℕ, ◌≤◌, String, true, false, List, [], ◌∷◌, ◌≡◌, refl, arith}
use dittobench_api.Base.Assoc.{lookup, insert}
use dittobench_api.RateLimit.{new, hits_of, admit, allow, after}
use dittobench_api.RateLimit.Window.{count, admitted, in_window, window_bound}

-- Two calls a window of 60; newest first.
abbrev busy : List (String × ℕ)
busy = ("a", 40) ∷ ("b", 30) ∷ ("a", 20) ∷ ("a", 10) ∷ []

third_refused : (allow "a" 40 (after (new 2 60) (("a", 20) ∷ ("a", 10) ∷ []))).1 ≡ false
unfolding allow after new hits_of admit lookup insert
third_refused = refl

first_expires : (allow "a" 70 (after (new 2 60) busy)).1 ≡ true
unfolding allow after new hits_of admit lookup insert
first_expires = refl

window_bound_example : count (in_window 60 10) (admitted "a" (new 2 60) busy) ≤ 2
window_bound_example = window_bound 2 60 40 "a" busy (omega arith) 10
