-- ===== src/Ssrf.antt =====
-- The guard of pulls, src/turbohaul/ssrf_guard.py. The parser of addresses (`ipaddress`), of URLs
-- (`urlparse`) and the resolver (`getaddrinfo`) are parameters.
pub mod Ranges
pub mod Pull
pub mod Hosts
mod Examples
use southpaw_turbohaul.Base.{
  ℕ, ◌+◌, ◌-◌, ◌*◌, ◌/◌, ◌^◌, String, Bool, true, false, not, ◌||◌, List, [], ◌∷◌, Option, none,
  some, nat_eq, if◌then◌else◌, ◌==◌, any,
}
use southpaw_turbohaul.Base.Text.{codes, append_text, lower, finishes_with}

-- `IPv4Address` and `IPv6Address`, as numbers of 32 and 128 bits.
pub data Address : Type 0 where
  v4 v6 : ℕ → Address

abbrev pub ipv4 : ℕ → ℕ → ℕ → ℕ → ℕ
ipv4 a b c d = ((a * 256 + b) * 256 + c) * 256 + d

-- An address by its groups of 16 bits.
abbrev pub ipv6 : ℕ → ℕ → ℕ → ℕ → ℕ → ℕ → ℕ → ℕ → ℕ
ipv6 a b c d e f g h =
    ((((((a * 65536 + b) * 65536 + c) * 65536 + d) * 65536 + e) * 65536 + f) * 65536 + g) * 65536
    + h

-- A network: its address, and how many bits are not part of the prefix.
abbrev pub Network : Type 0
Network = ℕ × ℕ

-- `DENY_IPV4_NETWORKS`
abbrev pub deny_ipv4_networks : List Network
deny_ipv4_networks =
    (ipv4 10 0 0 0, 24)
    ∷ (ipv4 172 16 0 0, 20)
    ∷ (ipv4 192 168 0 0, 16)
    ∷ (ipv4 127 0 0 0, 24)
    ∷ (ipv4 169 254 0 0, 16)
    ∷ (ipv4 100 64 0 0, 22)
    ∷ (ipv4 0 0 0 0, 24)
    ∷ (ipv4 224 0 0 0, 28)
    ∷ (ipv4 240 0 0 0, 28)
    ∷ []

-- `DENY_IPV6_NETWORKS`
abbrev pub deny_ipv6_networks : List Network
deny_ipv6_networks =
    (ipv6 0 0 0 0 0 0 0 1, 0)
    ∷ (ipv6 0xfc00 0 0 0 0 0 0 0, 121)
    ∷ (ipv6 0xfe80 0 0 0 0 0 0 0, 118)
    ∷ (ipv6 0xff00 0 0 0 0 0 0 0, 120)
    ∷ (ipv6 0x64 0xff9b 0 0 0 0 0 0, 32)
    ∷ (ipv6 0 0 0 0 0 0 0 0, 32)
    ∷ (ipv6 0 0 0 0 0 0xffff 0 0, 32)
    ∷ (ipv6 0x2001 0xdb8 0 0 0 0 0 0, 96)
    ∷ []

-- `ip in net`
abbrev pub is_in : ℕ → Network → Bool
is_in n (base, free) = nat_eq (n / 2 ^ free) (base / 2 ^ free)

unfoldable pub is_denied : Address → Bool
is_denied (v4 n) = any (is_in n) deny_ipv4_networks
is_denied (v6 n) = any (is_in n) deny_ipv6_networks

-- What `urlparse` returns of a URL.
pub record Parsed : Type 0 where
  pub scheme : String
  pub hostname : Option String

pub data Refusal : Type 0 where
  dns_failed no_records denied_network bad_scheme no_hostname denied_literal : Refusal

-- A value, or a `UrlSafetyError`.
pub data Checked (A : Type 0) : Type 0 where
  safe : A → Checked A
  refused : Refusal → Checked A

module _ (ip_address : String → Option Address) (str_ip : Address → String) where
  -- A text that is no address counts as blocked.
  unfoldable pub is_blocked_ip : String → Bool
  is_blocked_ip ip = elim (ip_address ip) [ none ↦ true | some a ↦ is_denied a ]

  -- The resolver fails, or lists addresses, of which the first one counts.
  unfoldable pub pick_first : Option (List String) → Checked String
  pick_first none = refused dns_failed
  pick_first (some []) = refused no_records
  pick_first (some (ip ∷ more)) = if is_blocked_ip ip then refused denied_network else safe ip

  module _ (getaddrinfo : String → Option (List String)) where
    unfoldable pub resolve_safely : String → Checked String
    resolve_safely host = pick_first (getaddrinfo host)

    -- The hostname is an address, or a name to resolve.
    unfoldable pub check_host : String → Option Address → Checked (String × String)
    check_host host (some a) =
        if is_blocked_ip (str_ip a) then refused denied_literal else safe (host, str_ip a)
    check_host host none = elim (resolve_safely host) [
      | safe ip ↦ safe (host, ip)
      | refused r ↦ refused r
    ]

    -- An empty hostname counts as none.
    unfoldable pub check_hostname : Option String → Checked (String × String)
    check_hostname none = refused no_hostname
    check_hostname (some host) =
        if host == "" then refused no_hostname else check_host host (ip_address host)

    unfoldable pub validate_pull_url : (String → Parsed) → String → Checked (String × String)
    validate_pull_url urlparse url =
        if not ((urlparse url).scheme == "https")
        then refused bad_scheme
        else check_hostname (urlparse url).hostname

abbrev pub is_host_of : String → String → Bool
is_host_of host allowed =
    lower host == lower allowed
    || finishes_with (codes (append_text "." (lower allowed))) (codes (lower host))

unfoldable pub is_hf_host : String → List String → Bool
unfolding lower finishes_with
is_hf_host host allowlist = any (is_host_of host) allowlist
