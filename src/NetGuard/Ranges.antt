-- ===== src/NetGuard/Ranges.antt =====
-- internal/netguard/netguard.go: the disallowed IPv4 addresses as ranges of numbers.
use dittobench_api.Base.{
  ℕ, ◌+◌, ◌*◌, ◌/◌, ◌<◌, Bool, true, some, [], ◌∷◌, ◌≡◌, ◌∙◌, arith, ◌==◌, leb, ◌&&◌, ◌||◌, nat_eq,
}
use dittobench_api.NetGuard.{to4, disallowed_v4, is_disallowed_ip}

-- The number that an IPv4 address is.
abbrev pub address : ℕ → ℕ → ℕ → ℕ → ℕ
address a b c d = ((a * 256 + b) * 256 + c) * 256 + d

abbrev within : ℕ → ℕ → ℕ → Bool
within lo hi n = leb lo n && leb n hi

-- 0.0.0.0/32, 10.0.0.0/8, 100.64.0.0/10, 127.0.0.0/8, 169.254.0.0/16, 172.16.0.0/12, 192.168.0.0/16
-- and 224.0.0.0/4.
abbrev pub is_special : ℕ → Bool
is_special n =
    n == 0
    || within 167772160 184549375 n
    || within 1681915904 1686110207 n
    || within 2130706432 2147483647 n
    || within 2851995648 2852061183 n
    || within 2886729728 2887778303 n
    || within 3232235520 3232301055 n
    || within 3758096384 4026531839 n

module _ (a b c d : ℕ) (ha : a < 256) (hb : b < 256) (hc : c < 256) (hd : d < 256) where
  private_ten_range : (a == 10) ≡ within 167772160 184549375 (address a b c d)
  private_ten_range = ground arith

  shared_range : (a == 100 && b / 64 == 1) ≡ within 1681915904 1686110207 (address a b c d)
  shared_range = ground arith

  loopback_range : (a == 127) ≡ within 2130706432 2147483647 (address a b c d)
  loopback_range = ground arith

  link_local_range : (a == 169 && b == 254) ≡ within 2851995648 2852061183 (address a b c d)
  link_local_range = ground arith

  private_twelve_range : (a == 172 && b / 16 == 1) ≡ within 2886729728 2887778303 (address a b c d)
  private_twelve_range = ground arith

  private_sixteen_range : (a == 192 && b == 168) ≡ within 3232235520 3232301055 (address a b c d)
  private_sixteen_range = ground arith

  multicast_range : (a / 16 == 14) ≡ within 3758096384 4026531839 (address a b c d)
  multicast_range = ground arith

  unspecified_range : (a == 0 && b == 0 && c == 0 && d == 0) ≡ (address a b c d == 0)
  unspecified_range = ground arith

-- The tests in the order of the source, one of them implied by a later one, and the ranges in order.
reordered :
    (l t w s k y m u z : Bool)
    → (y ≡ true → m ≡ true)
    → (l || (t || w || s) || k || y || m || u || z) ≡ (u || t || z || l || k || w || s || m)
reordered l t w s k y m u z h = ground arith

same_ors :
    {u t z l k w s m u' t' z' l' k' w' s' m' : Bool}
    → u ≡ u'
    → t ≡ t'
    → z ≡ z'
    → l ≡ l'
    → k ≡ k'
    → w ≡ w'
    → s ≡ s'
    → m ≡ m'
    → (u || t || z || l || k || w || s || m) ≡ (u' || t' || z' || l' || k' || w' || s' || m')
same_ors a b c d e f g h = cc

v4_special :
    (a b c d : ℕ)
    → a < 256
    → b < 256
    → c < 256
    → d < 256
    → disallowed_v4 (record { a = a; b = b; c = c; d = d }) ≡ is_special (address a b c d)
unfolding disallowed_v4
v4_special a b c d ha hb hc hd =
    reordered (a == 127) (a == 10) (a == 172 && b / 16 == 1) (a == 192 && b == 168)
      (a == 169 && b == 254) (a == 224 && b == 0 && c == 0) (a / 16 == 14)
      (a == 0 && b == 0 && c == 0 && d == 0) (a == 100 && b / 64 == 1) (λ h. ground arith)
    ∙ same_ors (unspecified_range a b c d ha hb hc hd) (private_ten_range a b c d ha hb hc hd)
        (shared_range a b c d ha hb hc hd) (loopback_range a b c d ha hb hc hd)
        (link_local_range a b c d ha hb hc hd) (private_twelve_range a b c d ha hb hc hd)
        (private_sixteen_range a b c d ha hb hc hd) (multicast_range a b c d ha hb hc hd)

-- An IPv4 address, in four bytes or in sixteen, is disallowed exactly when it lies in one of eight
-- ranges. So an address cannot get around the test in its IPv6 form.
pub disallowed_iff_special :
    (a b c d : ℕ)
    → a < 256
    → b < 256
    → c < 256
    → d < 256
    → (is_disallowed_ip (some (a ∷ b ∷ c ∷ d ∷ [])) ≡ is_special (address a b c d))
      × (is_disallowed_ip
            (some (0 ∷ 0 ∷ 0 ∷ 0 ∷ 0 ∷ 0 ∷ 0 ∷ 0 ∷ 0 ∷ 0 ∷ 255 ∷ 255 ∷ a ∷ b ∷ c ∷ d ∷ []))
          ≡ is_special (address a b c d))
unfolding is_disallowed_ip to4 disallowed_v4
disallowed_iff_special a b c d ha hb hc hd =
    (v4_special a b c d ha hb hc hd, v4_special a b c d ha hb hc hd)
