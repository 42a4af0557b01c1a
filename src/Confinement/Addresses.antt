-- ===== src/Confinement/Addresses.antt =====
-- `classify_address` and `_embedded_v4` of worlds/confinement.py. An address is the number its bits
-- spell.
use personal_world.Prelude.{
  ℕ, ◌-◌, ◌/◌, ◌%◌, ◌^◌, Text, Bool, false, Option, none, some, List, [], ◌∷◌, ◌++◌, ◌&&◌, ◌||◌,
  not, ◌==◌, nat_eq, elem, if◌then◌else◌,
}

pub data Ip : Type 0 where
  v4 v6 : ℕ → Ip

-- The module ipaddress: reading a text, and what it says of an address
pub record IpOps : Type 0 where
  pub parse : Text → Option Ip
  pub is_unspecified : Ip → Bool
  pub is_multicast : Ip → Bool
  pub is_loopback : Ip → Bool
  pub is_link_local : Ip → Bool
  pub is_private : Ip → Bool
  pub is_reserved : Ip → Bool

-- The reasons
pub data Denied : Type 0 where
  unparseable metadata unroutable internal : Denied

-- `ip in ip_network(...)`, by the bits in front
abbrev pub prefixed : ℕ → ℕ → ℕ → Bool
prefixed bits front n = n / 2 ^ bits == front

-- `_METADATA`
abbrev metadata_v4 : List ℕ
metadata_v4 = 0xA9FEA9FE ∷ 0xA9FEAA02 ∷ 0x646464C8 ∷ 0xA83F8110 ∷ []

unfoldable pub is_metadata : Ip → Bool
unfolding elem
is_metadata (v4 n) = elem n metadata_v4
is_metadata (v6 n) = n == 0xFD000EC2000000000000000000000254

-- `_NEVER`: 0.0.0.0/8 and 240.0.0.0/4
unfoldable pub in_never : Ip → Bool
in_never (v4 n) = prefixed 24 0 n || prefixed 28 15 n
in_never (v6 n) = false

-- `_CGNAT`, 100.64.0.0/10, and `_SITE_LOCAL`, fec0::/10
unfoldable pub in_cgnat_or_site : Ip → Bool
in_cgnat_or_site (v4 n) = prefixed 22 0x191 n
in_cgnat_or_site (v6 n) = prefixed 118 0x3FB n

-- `ip.ipv4_mapped`
unfoldable pub mapped : ℕ → Option ℕ
mapped n = if prefixed 32 0xFFFF n then some (n % 2 ^ 32) else none

abbrev one_if : Bool → List ℕ → List ℕ
one_if b found = if b then found else []

abbrev of_option : Option ℕ → List ℕ
of_option none = []
of_option (some n) = n ∷ []

-- `_embedded_v4`: mapped, NAT64, 6to4, and Teredo's server and inverted client
unfoldable pub embedded_v4 : ℕ → List ℕ
unfolding mapped
embedded_v4 n =
    of_option (mapped n)
    ++ (one_if (prefixed 32 0x64FF9B0000000000000000 n) (n % 2 ^ 32 ∷ [])
        ++ (one_if (prefixed 112 0x2002 n) (n / 2 ^ 80 % 2 ^ 32 ∷ [])
            ++ one_if (prefixed 96 0x20010000 n)
                (n / 2 ^ 64 % 2 ^ 32 ∷ (2 ^ 32 - 1 - n % 2 ^ 32) ∷ [])))

unfoldable pub is_internal : IpOps → Ip → Bool
unfolding in_cgnat_or_site
is_internal ops ip =
    ops.is_loopback ip || ops.is_link_local ip || ops.is_private ip || in_cgnat_or_site ip

-- The tests on the address itself
unfoldable pub classify_ip : IpOps → Bool → Ip → Option Denied
unfolding is_metadata in_never is_internal
classify_ip ops lan ip =
    if is_metadata ip
    then some metadata
    else if ops.is_unspecified ip || ops.is_multicast ip
    then some unroutable
    else if in_never ip
    then some unroutable
    else if ops.is_reserved ip && not (is_internal ops ip)
    then some unroutable
    else if is_internal ops ip && not lan
    then some internal
    else none

-- `inner and ("metadata" in inner or "unroutable" in inner)`
abbrev pub never_routed : Option Denied → Option Denied
never_routed (some metadata) = some metadata
never_routed (some unroutable) = some unroutable
never_routed d = none

abbrev pub or_denied : Option Denied → Option Denied → Option Denied
or_denied (some d) rest = some d
or_denied none rest = rest

-- The first loop over the embedded addresses, and the second
unfoldable pub first_never : IpOps → Bool → List ℕ → Option Denied
unfolding classify_ip
first_never ops lan [] = none
first_never ops lan (n ∷ ns) =
    or_denied (never_routed (classify_ip ops lan (v4 n))) (first_never ops lan ns)

unfoldable pub first_denied : IpOps → List ℕ → Option Denied
unfolding classify_ip
first_denied ops [] = none
first_denied ops (n ∷ ns) = or_denied (classify_ip ops false (v4 n)) (first_denied ops ns)

-- `ip = ip.ipv4_mapped`
abbrev pub unmapped : Option ℕ → ℕ → Ip
unmapped (some m) n = v4 m
unmapped none n = v6 n

unfoldable pub classify_parsed : IpOps → Bool → Ip → Option Denied
unfolding first_never first_denied embedded_v4 mapped classify_ip
classify_parsed ops lan (v4 n) = classify_ip ops lan (v4 n)
classify_parsed ops lan (v6 n) = or_denied (first_never ops lan (embedded_v4 n)) (
    or_denied (if lan then none else first_denied ops (embedded_v4 n))
      (classify_ip ops lan (unmapped (mapped n) n)))

abbrev pub before_percent : Text → Text
before_percent [] = []
before_percent (c ∷ t) = let rest = before_percent t in if c == b'%' then [] else c ∷ rest

abbrev pub of_parsed : IpOps → Bool → Option Ip → Option Denied
of_parsed ops lan none = some unparseable
of_parsed ops lan (some ip) = classify_parsed ops lan ip

-- `classify_address`
unfoldable pub classify_address : IpOps → Bool → Text → Option Denied
unfolding classify_parsed
classify_address ops lan address = of_parsed ops lan (ops.parse (before_percent address))
