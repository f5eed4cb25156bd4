-- ===== src/Ssrf/Ranges.antt =====
-- Which addresses src/turbohaul/ssrf_guard.py lets pass, octet by octet. Special-purpose networks
-- that its tables do not list, such as 198.18.0.0/15, 192.0.2.0/24, 2002::/16 and fec0::/10, pass.
use southpaw_turbohaul.Base.{ℕ, ◌*◌, ◌/◌, ◌%◌, ◌<◌, ◌≡◌, ◌≢◌, ◌⊎◌, ◌↔◌, false, arith, ◌^◌}
use southpaw_turbohaul.Ssrf.{Address, v4, v6, is_denied}

-- The first two octets of an IPv4 address.
abbrev first : ℕ → ℕ
first n = n / 2 ^ 24

abbrev second : ℕ → ℕ
second n = n / 2 ^ 16 % 256

-- Not this network, private, shared (100.64 to 100.127), loopback, link-local, multicast or
-- reserved.
abbrev pub IsUndenied4 : ℕ → Type 0
IsUndenied4 n =
    (first n ≢ 0)
    × (first n ≢ 10)
    × (first n ≢ 127)
    × (first n < 224)
    × ((first n ≢ 100) ⊎ (second n < 64) ⊎ (127 < second n))
    × ((first n ≢ 169) ⊎ (second n ≢ 254))
    × ((first n ≢ 172) ⊎ (second n < 16) ⊎ (31 < second n))
    × ((first n ≢ 192) ⊎ (second n ≢ 168))

-- Not unique-local, link-local or multicast, no IPv4 address in a NAT64, mapped or compatible form,
-- and not for documentation.
abbrev pub IsUndenied6 : ℕ → Type 0
IsUndenied6 n =
    ((n / 2 ^ 112 < 0xfc00) ⊎ (0xfdff < n / 2 ^ 112))
    × ((n / 2 ^ 112 < 0xfe80) ⊎ (0xfebf < n / 2 ^ 112))
    × (n / 2 ^ 112 < 0xff00)
    × (n / 2 ^ 32 ≢ 0x64ff9b * 2 ^ 64)
    × (n / 2 ^ 32 ≢ 0)
    × (n / 2 ^ 32 ≢ 0xffff)
    × (n / 2 ^ 96 ≢ 0x20010db8)

abbrev pub IsUndenied : Address → Type 0
IsUndenied (v4 n) = IsUndenied4 n
IsUndenied (v6 n) = IsUndenied6 n

-- The address fits its 32 or 128 bits.
abbrev pub IsInRange : Address → Type 0
IsInRange (v4 n) = n < 2 ^ 32
IsInRange (v6 n) = n < 2 ^ 128

-- The tables of denied networks deny exactly the addresses that these conditions rule out.
pub is_denied-IsUndenied : (a : Address) → IsInRange a → (is_denied a ≡ false) ↔ IsUndenied a
unfolding is_denied
is_denied-IsUndenied (v4 n) h = (λ e. ground arith, λ p. ground arith)
is_denied-IsUndenied (v6 n) h = (λ e. ground arith, λ p. ground arith)
