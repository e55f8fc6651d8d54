-- ===== src/NetGuard/Examples.antt =====
-- The address of the metadata service of clouds and a public host, and the theorems at them.
use dittobench_api.Base.{
  ℕ, true, false, Option, none, some, List, [], ◌∷◌, ◌≡◌, ◌≢◌, refl, ◌↔◌, ◌⊎◌, inr, arith, ◌||◌,
}
use dittobench_api.Base.Text.{bytes_of, same_text}
use dittobench_api.NetGuard.Guard.{Url, Net, validate_url, dial_allowed}
use dittobench_api.NetGuard.Guard.Resolution.{IsPublic, PublicHost, validate_url_iff}
use dittobench_api.NetGuard.{is_disallowed_ip}
use dittobench_api.NetGuard.Ranges.{address, is_special, disallowed_iff_special}

disallowed_iff_special_example :
    (is_disallowed_ip (some (169 ∷ 254 ∷ 169 ∷ 254 ∷ [])) ≡ is_special (address 169 254 169 254))
    × (is_disallowed_ip
          (some (0 ∷ 0 ∷ 0 ∷ 0 ∷ 0 ∷ 0 ∷ 0 ∷ 0 ∷ 0 ∷ 0 ∷ 255 ∷ 255 ∷ 169 ∷ 254 ∷ 169 ∷ 254 ∷ []))
        ≡ is_special (address 169 254 169 254))
disallowed_iff_special_example =
    disallowed_iff_special 169 254 169 254 (omega arith) (omega arith) (omega arith) (omega arith)

abbrev site : Url
site = record { scheme = bytes_of "https"; hostname = bytes_of "h" }

abbrev parse_any : List ℕ → List ℕ ⊎ Url
parse_any raw = inr site

abbrev no_literal : List ℕ → Option (List ℕ)
no_literal host = none

abbrev resolve_google : List ℕ → List ℕ ⊎ List (List ℕ)
resolve_google host = inr ((8 ∷ 8 ∷ 8 ∷ 8 ∷ []) ∷ [])

abbrev resolver : Net
resolver = record {
  parse_url = parse_any;
  parse_ip = no_literal;
  lookup_ip = resolve_google;
  split_host = λ address. some address;
}

validate_url_iff_example :
    ((validate_url resolver (bytes_of "https://h") false ≡ none)
      ↔ ((same_text site.scheme (bytes_of "http") || same_text site.scheme (bytes_of "https"))
          ≡ true)
        × (site.hostname ≢ [])
        × PublicHost resolver site.hostname)
    × ((address : List ℕ)
        → dial_allowed resolver false address ≡ true
        → (host : List ℕ) × (ip : List ℕ) × (resolver.split_host address ≡ some host)
          × (resolver.parse_ip host ≡ some ip)
          × IsPublic ip)
validate_url_iff_example = validate_url_iff resolver (bytes_of "https://h") site refl
