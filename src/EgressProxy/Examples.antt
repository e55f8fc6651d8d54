-- ===== src/EgressProxy/Examples.antt =====
-- cmd/egress-proxy/main.go: tests and witnesses.
use dittobench_api.Base.{true, false, some, List, [], ◌∷◌, ◌≡◌, ◌↔◌, refl}
use mathlib.Core.List.{Memᴰ}
use dittobench_api.Base.Text.{bytes_of, trim_space, trim_left, is_space, lower, cut_prefix}
use dittobench_api.EgressProxy.{
  Text, parse_list, host_allowed, Proxy, Request, Net, serve, tunnel, proxy_from_env,
}
use dittobench_api.EgressProxy.Allowed.{Listed, dialled_iff}

parsed : parse_list (bytes_of " Chutes.AI, ,x.org,") ≡ bytes_of "chutes.ai" ∷ bytes_of "x.org" ∷ []
unfolding parse_list trim_space trim_left is_space lower
parsed = refl

abbrev allow : List Text
allow = bytes_of "chutes.ai" ∷ []

subdomain : host_allowed (bytes_of "LLM.chutes.ai.") allow ≡ true
unfolding host_allowed trim_space trim_left is_space lower cut_prefix
subdomain = refl

other_domain : host_allowed (bytes_of "notchutes.ai") allow ≡ false
unfolding host_allowed trim_space trim_left is_space lower cut_prefix
other_domain = refl

longer_domain : host_allowed (bytes_of "chutes.ai.evil.com") allow ≡ false
unfolding host_allowed trim_space trim_left is_space lower cut_prefix
longer_domain = refl

abbrev net : Net
net = record {
  split_host_port = λ t. some (bytes_of "llm.chutes.ai", bytes_of "443");
  dial = λ h p. true;
  hijack = true;
  write_established = true;
}

abbrev request : Request
request = record { is_connect = true; target = bytes_of "llm.chutes.ai:443" }

abbrev proxy : Proxy
proxy = record { allow = allow; ports = bytes_of "443" ∷ [] }

configured : proxy_from_env (bytes_of "Chutes.ai") [] ≡ proxy
unfolding proxy_from_env trim_space trim_left is_space lower
configured = refl

tunnelled : (serve net proxy request).answer ≡ tunnel
unfolding serve trim_space trim_left is_space lower cut_prefix
tunnelled = refl

dialled_iff_example :
    ((serve net proxy request).dialled ≡ some (bytes_of "llm.chutes.ai", bytes_of "443")) ↔ (
      (request.is_connect ≡ true)
      × (net.split_host_port request.target ≡ some (bytes_of "llm.chutes.ai", bytes_of "443"))
      × Memᴰ (bytes_of "443") proxy.ports
      × Listed (bytes_of "llm.chutes.ai") proxy.allow)
dialled_iff_example = dialled_iff net proxy request (bytes_of "llm.chutes.ai") (bytes_of "443")
