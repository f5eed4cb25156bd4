-- ===== src/Ssrf/Examples.antt =====
-- Tests of the model of src/turbohaul/ssrf_guard.py, and its theorems at concrete hosts.
use southpaw_turbohaul.Base.{
  String, ◌≡◌, ◌≢◌, refl, true, false, List, [], ◌∷◌, Option, none, some, arith, if◌then◌else◌,
  ◌==◌,
}
use southpaw_turbohaul.Ssrf.{
  Address, v4, v6, ipv4, ipv6, is_denied, check_hostname, check_host, resolve_safely, pick_first,
  is_blocked_ip, Parsed, safe, refused, validate_pull_url, denied_network, bad_scheme, is_hf_host,
}
use southpaw_turbohaul.Ssrf.Ranges.{IsInRange}
use southpaw_turbohaul.Ssrf.Pull.{IsUndeniedIp, IsOf, validate_pull_url-IsOf}

-- A host that knows three addresses.
ip_address : String → Option Address
ip_address s =
    if s == "52.1.2.3"
    then some (v4 (ipv4 52 1 2 3))
    else if s == "169.254.169.254"
    then some (v4 (ipv4 169 254 169 254))
    else if s == "::ffff:a00:1"
    then some (v6 (ipv6 0 0 0 0 0 0xffff 0xa00 1))
    else none

str_ip : Address → String
str_ip a = "52.1.2.3"

urlparse : String → Parsed
urlparse url = record {
  scheme = if url == "http://hf.co/x" then "http" else "https";
  hostname = some "hf.co";
}

resolves_to : String → String → Option (List String)
resolves_to ip host = some (ip ∷ [])

in_range : (ip : String) (a : Address) → ip_address ip ≡ some a → IsInRange a
unfolding ip_address
in_range ip a e = ground arith

pulls :
    (validate_pull_url ip_address str_ip (resolves_to "52.1.2.3") urlparse "https://hf.co/x"
      ≡ safe ("hf.co", "52.1.2.3"))
    × (validate_pull_url ip_address str_ip
          (resolves_to "169.254.169.254")
          urlparse
          "https://hf.co/x"
        ≡ refused denied_network)
    × (validate_pull_url ip_address str_ip (resolves_to "::ffff:a00:1") urlparse "https://hf.co/x"
        ≡ refused denied_network)
    × (validate_pull_url ip_address str_ip (resolves_to "52.1.2.3") urlparse "http://hf.co/x"
        ≡ refused bad_scheme)
unfolding validate_pull_url ip_address urlparse resolves_to str_ip is_denied check_hostname
    check_host resolve_safely pick_first is_blocked_ip
pulls = (refl, refl, refl, refl)

ranges :
    (is_denied (v4 (ipv4 172 31 0 1)) ≡ true)
    × (is_denied (v4 (ipv4 172 32 0 1)) ≡ false)
    × (is_denied (v4 (ipv4 198 18 0 1)) ≡ false)
unfolding is_denied
ranges = (refl, refl, refl)

validate_pull_url-IsOf_example :
    ((urlparse "https://hf.co/x").scheme ≡ "https")
    × ((urlparse "https://hf.co/x").hostname ≡ some "hf.co")
    × (◌≢◌ {A = String} "hf.co" "")
    × IsUndeniedIp ip_address str_ip in_range urlparse (resolves_to "52.1.2.3") "52.1.2.3"
    × IsOf ip_address str_ip in_range urlparse (resolves_to "52.1.2.3") "hf.co" "52.1.2.3"
validate_pull_url-IsOf_example =
    validate_pull_url-IsOf ip_address str_ip in_range urlparse (resolves_to "52.1.2.3")
      "https://hf.co/x" "hf.co" "52.1.2.3" pulls.0

abbrev hosts : List String
hosts = "huggingface.co" ∷ "hf.co" ∷ []

host_tests : (is_hf_host "CDN-lfs.HF.co" hosts ≡ true) × (is_hf_host "evilhf.co" hosts ≡ false)
unfolding is_hf_host
host_tests = (refl, refl)
