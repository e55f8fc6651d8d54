-- ===== src/NetGuard.antt =====
-- internal/netguard/netguard.go: which addresses a harness may have, with what it uses of package
-- net. An address is the list of its four or sixteen bytes, none the nil address; a mask on a byte is
-- written as a division or a remainder.
pub mod Ranges
pub mod Guard
mod Examples
use dittobench_api.Base.{
  ℕ, ◌/◌, ◌%◌, Bool, true, false, Option, none, some, List, [], ◌∷◌, ◌==◌, leb, ◌&&◌, ◌||◌, nat_eq,
  if◌then◌else◌,
}
use dittobench_api.Base.Text.{same_text}

pub record Quad : Type 0 where
  pub a : ℕ
  pub b : ℕ
  pub c : ℕ
  pub d : ℕ

abbrev v4_in_v6_prefix : List ℕ
v4_in_v6_prefix = 0 ∷ 0 ∷ 0 ∷ 0 ∷ 0 ∷ 0 ∷ 0 ∷ 0 ∷ 0 ∷ 0 ∷ 255 ∷ 255 ∷ []

abbrev pub v6_zero : List ℕ
v6_zero = 0 ∷ 0 ∷ 0 ∷ 0 ∷ 0 ∷ 0 ∷ 0 ∷ 0 ∷ 0 ∷ 0 ∷ 0 ∷ 0 ∷ 0 ∷ 0 ∷ 0 ∷ 0 ∷ []

abbrev pub v6_loopback : List ℕ
v6_loopback = 0 ∷ 0 ∷ 0 ∷ 0 ∷ 0 ∷ 0 ∷ 0 ∷ 0 ∷ 0 ∷ 0 ∷ 0 ∷ 0 ∷ 0 ∷ 0 ∷ 0 ∷ 1 ∷ []

-- The bytes after a prefix that is there.
abbrev after_prefix : List ℕ → List ℕ → Option (List ℕ)
after_prefix [] s = some s
after_prefix (p ∷ ps) [] = none
after_prefix (p ∷ ps) (c ∷ s) = let rest = after_prefix ps s in if p == c then rest else none

abbrev four : List ℕ → Option Quad
four (a ∷ b ∷ c ∷ d ∷ []) = some (record { a = a; b = b; c = c; d = d })
four _ = none

abbrev quad_or : Option Quad → Option (List ℕ) → Option Quad
quad_or (some q) rest = some q
quad_or none (some s) = four s
quad_or none none = none

-- ip.To4()
unfoldable pub to4 : List ℕ → Option Quad
to4 ip = quad_or (four ip) (after_prefix v4_in_v6_prefix ip)

-- The tests of package net and of the source on an IPv4 address.
unfoldable pub disallowed_v4 : Quad → Bool
disallowed_v4 q =
    q.a == 127
    || (q.a == 10 || (q.a == 172 && q.b / 16 == 1) || (q.a == 192 && q.b == 168))
    || (q.a == 169 && q.b == 254)
    || (q.a == 224 && q.b == 0 && q.c == 0)
    || q.a / 16 == 14
    || (q.a == 0 && q.b == 0 && q.c == 0 && q.d == 0)
    || (q.a == 100 && q.b / 64 == 1)

-- Those of package net on any other address, from its first two bytes where it has sixteen.
unfoldable pub disallowed_v6 : List ℕ → Bool
disallowed_v6 (a ∷ b ∷ s) =
    same_text (a ∷ b ∷ s) v6_loopback
    || a / 2 == 126
    || (a == 254 && b / 64 == 2)
    || a == 255
    || same_text (a ∷ b ∷ s) v6_zero
disallowed_v6 _ = false

unfoldable pub is_disallowed_ip : Option (List ℕ) → Bool
unfolding to4 disallowed_v4 disallowed_v6
is_disallowed_ip none = true
is_disallowed_ip (some ip) = elim (to4 ip) [ some q ↦ disallowed_v4 q | none ↦ disallowed_v6 ip ]
