-- ===== src/Ssrf/Pull.antt =====
-- What `validate_pull_url` of src/turbohaul/ssrf_guard.py promises of a URL.
use southpaw_turbohaul.Base.{
  String, ◌≡◌, ◌≢◌, refl, ap, ◌∙◌, subst, Bool, true, false, List, [], ◌∷◌, Option, none, some,
  if◌then◌else◌, ◌==◌, eq_iff, Bool-cases, Option-cases, ◌⊎◌, inl, inr,
}
use southpaw_turbohaul.Ssrf.{
  Address, Parsed, Refusal, Checked, safe, refused, is_blocked_ip, pick_first, resolve_safely,
  check_host, check_hostname, validate_pull_url, denied_network, denied_literal,
}
use southpaw_turbohaul.Ssrf.Ranges.{IsUndenied, IsInRange, is_denied-IsUndenied}

if_safe :
    {A : Type 0} (b : Bool) (a c : A) (r : Refusal)
    → (if b then refused r else safe a) ≡ safe c
    → (b ≡ false) × (a ≡ c)
if_safe true a c r h = cc
if_safe false a c r h = (refl, cc)

module _ (ip_address : String → Option Address) (str_ip : Address → String)
    (in_range : (ip : String) (a : Address) → ip_address ip ≡ some a → IsInRange a)
    (urlparse : String → Parsed) (getaddrinfo : String → Option (List String)) where
  -- The text is an address in no denied network.
  abbrev pub IsUndeniedIp : String → Type 0
  IsUndeniedIp ip = (a : Address) × (ip_address ip ≡ some a) × IsUndenied a

  -- The address is the host's own, if the host is a literal, and else the first that the resolver
  -- lists for it.
  abbrev pub IsOf : String → String → Type 0
  IsOf host ip =
      ((a : Address) × (ip_address host ≡ some a) × (ip ≡ str_ip a))
      ⊎ ((more : List String) × (ip_address host ≡ none) × (getaddrinfo host ≡ some (ip ∷ more)))

  unblocked : (ip : String) → is_blocked_ip ip_address str_ip ip ≡ false → IsUndeniedIp ip
  unfolding is_blocked_ip
  unblocked ip h = elim (Option-cases (ip_address ip)) [
    | inl missing ↦ absurd (cc (rw (missing, is_blocked_ip) at h))
    | inr (a, e) ↦ (a, e, (is_denied-IsUndenied a (in_range ip a e)).0 (rw (e, is_blocked_ip) at h))
  ]

  picked :
      (o : Option (List String)) (ip : String)
      → pick_first ip_address str_ip o ≡ safe ip
      → (more : List String) × (o ≡ some (ip ∷ more)) × IsUndeniedIp ip
  unfolding pick_first
  picked none ip h = cc
  picked (some []) ip h = cc
  picked (some (x ∷ more)) ip h =
      let (free, same) = if_safe _ x ip denied_network h in
      (more, ap (λ y. some (y ∷ more)) same, subst IsUndeniedIp same (unblocked x free))

  -- The pair of a host and its address.
  abbrev IsChecked : String → String × String → Type 0
  IsChecked host (named, ip) = (host ≡ named) × IsUndeniedIp ip × IsOf host ip

  located :
      (host : String) (c : Checked String) (out : String × String)
      → ((ip : String) → c ≡ safe ip → IsUndeniedIp ip × IsOf host ip)
      → elim c [ safe ip ↦ safe (host, ip) | refused r ↦ refused r ] ≡ safe out
      → IsChecked host out
  located host (safe ip) out h e =
      let same : (host, ip) ≡ out = cc in
      let (free, of_host) = h ip refl in subst (IsChecked host) same (refl, free, of_host)
  located host (refused r) out h e = absurd (cc)

  host-IsChecked :
      (host : String) (parsed : Option Address) (out : String × String)
      → ip_address host ≡ parsed
      → check_host ip_address str_ip getaddrinfo host parsed ≡ safe out
      → IsChecked host out
  host-IsChecked host (some a) out e h =
      let (free, same) =
        if_safe (is_blocked_ip ip_address str_ip (str_ip a)) (host, str_ip a) out denied_literal
          (unfold check_host in h) in
      subst (IsChecked host) same (refl, unblocked (str_ip a) free, inl (a, e, refl))
  host-IsChecked host none out e h =
      located host (resolve_safely ip_address str_ip getaddrinfo host) out
        (λ ip x.
          let (more, first, free) = picked (getaddrinfo host) ip (unfold resolve_safely in x) in
          (free, inr (more, e, first)))
        (unfold check_host in h)

  hostname-IsChecked :
      (o : Option String) (host ip : String)
      → check_hostname ip_address str_ip getaddrinfo o ≡ safe (host, ip)
      → (o ≡ some host) × (host ≢ "") × IsUndeniedIp ip × IsOf host ip
  unfolding check_hostname
  hostname-IsChecked none host ip h = absurd (cc)
  hostname-IsChecked (some x) host ip h = elim (Bool-cases (x == "")) [
    | inl empty ↦ absurd (cc (rw empty at h))
    | inr named ↦
        let (same, free, of_host) =
          host-IsChecked x (ip_address x) (host, ip) refl (rw named at h) in
        (
          ap some same,
          λ e. cc (named, (eq_iff x "").1 (same ∙ e)),
          free,
          subst (λ y. IsOf y ip) same of_host,
        )
  ]

  -- A URL that is accepted has the scheme https and a hostname. The address that the caller is told
  -- to connect to is the host's own, if the host is an address, and else the first that the resolver
  -- lists for the host; and it is an address outside the denied ranges: this network, private,
  -- shared, loopback, link-local, multicast and reserved IPv4; and unique-local, link-local,
  -- multicast, documentation, NAT64, IPv4-mapped and IPv4-compatible IPv6.
  pub validate_pull_url-IsOf :
      (url host ip : String)
      → validate_pull_url ip_address str_ip getaddrinfo urlparse url ≡ safe (host, ip)
      → ((urlparse url).scheme ≡ "https")
        × ((urlparse url).hostname ≡ some host)
        × (host ≢ "")
        × IsUndeniedIp ip
        × IsOf host ip
  unfolding validate_pull_url
  validate_pull_url-IsOf url host ip h = elim (Bool-cases ((urlparse url).scheme == "https")) [
    | inl https ↦
        let (same, named, free, of_host) =
          hostname-IsChecked (urlparse url).hostname host ip (rw https at h) in
        ((eq_iff (urlparse url).scheme "https").0 https, same, named, free, of_host)
    | inr plain ↦ absurd (cc (rw plain at h))
  ]
