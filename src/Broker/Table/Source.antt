-- ===== src/Broker/Table/Source.antt =====
-- cmd/dittobench-api/inference_broker.go, sessionForSource: which session serves a call.
use dittobench_api.Base.{
  ℕ, String, Bool, true, false, Option, none, some, [], ◌∷◌, ◌≡◌, arith, ◌==◌, ◌&&◌, nat_eq,
  string_eq, text_beq_iff, Bool-cases, Option-cases, ◌⊎◌, inl, inr, subst, sym,
}
use mathlib.Core.Option.{some-injective}
use dittobench_api.Base.Assoc.{Assoc}
use dittobench_api.Broker.Session.{Session, Broker, Parsers}
use dittobench_api.Broker.Control.{is_active}
use dittobench_api.Broker.Table.{find_source, session_for_source}

-- A session of the map.
pub data Stored (s : Session) : Assoc Session → Type 0 where
  first : (id : String) {m : Assoc Session} → Stored s ((id, s) ∷ m)
  later : (e : String × Session) {m : Assoc Session} → Stored s m → Stored s (e ∷ m)

abbrev pub serves : String → ℕ → Session → Bool
serves ip now s = s.expected_source_ip == ip && is_active s now

find_source-some :
    (ip : String) (now : ℕ) (m : Assoc Session) {s : Session}
    → find_source ip now m ≡ some s
    → Stored s m × (serves ip now s ≡ true)
unfolding find_source
find_source-some ip now [] h = cc
find_source-some ip now ((id, t) ∷ m) h = elim (Bool-cases (serves ip now t)) [
  | inl right ↦
      let same : some t ≡ some _ = rw right at h in
      let is_t : t ≡ _ = some-injective t _ same in
      subst (λ u. Stored u ((id, t) ∷ m) × (serves ip now u ≡ true)) is_t (first id, right)
  | inr wrong ↦
      let rest : find_source ip now m ≡ some _ = rw wrong at h in
      let (there, ok) = find_source-some ip now m rest in (later (id, t) there, ok)
]

find_source-none :
    (ip : String) (now : ℕ) (m : Assoc Session) {s : Session}
    → find_source ip now m ≡ none
    → Stored s m
    → s.expected_source_ip ≡ ip
    → is_active s now ≡ false
unfolding find_source
find_source-none ip now [] h there bound = elim there [ ]
find_source-none ip now ((id, t) ∷ m) h (first i) bound =
    ground (arith, h, bound, text_beq_iff t.expected_source_ip ip)
find_source-none ip now ((id, t) ∷ m) h (later e there) bound =
    find_source-none ip now m (ground (arith, h)) there bound

-- What a lookup by address may return.
abbrev pub IsServed : Parsers → String → ℕ → Broker → Option Session → Type 0
IsServed parsers ip now b (some s) =
    Stored s b.sessions
    × (parsers.is_ip ip ≡ true)
    × (s.expected_source_ip ≡ ip)
    × (is_active s now ≡ true)
IsServed parsers ip now b none =
    (parsers.is_ip ip ≡ false)
    ⊎ ((s : Session) → Stored s b.sessions → s.expected_source_ip ≡ ip → is_active s now ≡ false)

module _ (parsers : Parsers) where
  session_for_source_missing :
      (ip : String) (now : ℕ) (b : Broker)
      → session_for_source parsers ip now b ≡ none
      → IsServed parsers ip now b none
  unfolding session_for_source
  session_for_source_missing ip now b h = elim (Bool-cases (parsers.is_ip ip)) [
    | inl right ↦
        let missing : find_source ip now b.sessions ≡ none = rw right at h in
        inr (λ s there bound. find_source-none ip now b.sessions missing there bound)
    | inr wrong ↦ inl wrong
  ]

  -- A session that is returned is stored, bound to the address and active.
  session_for_source_sound :
      (ip : String) (now : ℕ) (b : Broker) (s : Session)
      → session_for_source parsers ip now b ≡ some s
      → Stored s b.sessions
        × (parsers.is_ip ip ≡ true)
        × (s.expected_source_ip ≡ ip)
        × (is_active s now ≡ true)
  unfolding session_for_source
  session_for_source_sound ip now b s h = elim (Bool-cases (parsers.is_ip ip)) [
    | inl right ↦
        let found : find_source ip now b.sessions ≡ some s = rw right at h in
        let (there, ok) = find_source-some ip now b.sessions found in
        (there, right, ground (arith, ok, text_beq_iff s.expected_source_ip ip), ground (arith, ok))
    | inr wrong ↦ ground (arith, wrong, h)
  ]

  -- A lookup by source address returns a session of the map that is bound to this very address and
  -- active at this time, for a text that is an address; and it returns none only if the text is no
  -- address, or every session of the map that is bound to it is inactive at this time.
  pub session_for_source_exact :
      (ip : String) (now : ℕ) (b : Broker)
      → IsServed parsers ip now b (session_for_source parsers ip now b)
  session_for_source_exact ip now b = elim (Option-cases (session_for_source parsers ip now b)) [
    | inl missing ↦
        subst (IsServed parsers ip now b) (sym missing)
          (session_for_source_missing ip now b missing)
    | inr (s, found) ↦
        subst (IsServed parsers ip now b) (sym found) (session_for_source_sound ip now b s found)
  ]
