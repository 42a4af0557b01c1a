-- ===== src/Confinement/Allowed.antt =====
-- Which addresses `classify_address` lets through.
use personal_world.Prelude.{
  some_inj, ℕ, Text, Bool, true, false, Option, none, some, List, [], ◌∷◌, ◌++◌, ◌&&◌, not, ◌≡◌,
  ◌↔◌, refl, arith, sym, ap, subst, map, ◌∙◌, All, if◌then◌else◌,
}
use personal_world.Confinement.Addresses.{
  Ip, v4, v6, IpOps, Denied, is_metadata, in_never, is_internal, embedded_v4, mapped, classify_ip,
  never_routed, or_denied, first_never, first_denied, unmapped, classify_parsed, of_parsed,
  before_percent, classify_address,
}

-- What a provider may be sent to: never a metadata address nor one that is not routed, and one of this
-- network only where the provider is marked for it.
pub record IsAllowed (ops : IpOps) (lan : Bool) (ip : Ip) : Type 0 where
  pub not_metadata : is_metadata ip ≡ false
  pub specified : ops.is_unspecified ip ≡ false
  pub not_multicast : ops.is_multicast ip ≡ false
  pub not_never : in_never ip ≡ false
  pub reserved_internal : (ops.is_reserved ip && not (is_internal ops ip)) ≡ false
  pub internal_lan : (is_internal ops ip && not lan) ≡ false

classify_ip_iff :
    (ops : IpOps) (lan : Bool) (ip : Ip) → (classify_ip ops lan ip ≡ none) ↔ IsAllowed ops lan ip
unfolding classify_ip
classify_ip_iff ops lan ip = (
  λ h. record {
    not_metadata = ground (arith, h);
    specified = ground (arith, h);
    not_multicast = ground (arith, h);
    not_never = ground (arith, h);
    reserved_internal = ground (arith, h);
    internal_lan = ground (arith, h);
  },
  λ a. ground (
    arith, a.not_metadata, a.specified, a.not_multicast, a.not_never, a.reserved_internal,
    a.internal_lan,
  ),
)

-- An address and the IPv4 addresses that are hidden in it
abbrev pub faces : Ip → List Ip
faces (v4 n) = v4 n ∷ []
faces (v6 n) = map v4 (embedded_v4 n) ++ (unmapped (mapped n) n ∷ [])

or_denied-none : (a b : Option Denied) → (or_denied a b ≡ none) ↔ ((a ≡ none) × (b ≡ none))
or_denied-none none b = (λ h. (refl, h), λ h. h.1)
or_denied-none (some d) b = (λ h. absurd (ground (arith, h)), λ h. absurd (ground (arith, h.0)))

-- On a provider of this network no address is internal, so both loops refuse alike.
never_routed_lan :
    (ops : IpOps) (ip : Ip) → never_routed (classify_ip ops true ip) ≡ classify_ip ops true ip
unfolding classify_ip
never_routed_lan ops ip = ground arith

never_routed-none : (d : Option Denied) → d ≡ none → never_routed d ≡ none
never_routed-none d h = ap never_routed h

module _ (ops : IpOps) (lan : Bool) where
  abbrev AllAllowed : List ℕ → Type 0
  AllAllowed ns = All (IsAllowed ops lan) (map v4 ns)

  first_never-none : (ns : List ℕ) → AllAllowed ns → first_never ops lan ns ≡ none
  unfolding first_never
  first_never-none [] a = refl
  first_never-none (n ∷ ns) (h, a) =
      (or_denied-none _ _).1
        (ap never_routed ((classify_ip_iff ops lan (v4 n)).1 h), first_never-none ns a)

first_denied_iff :
    (ops : IpOps) (ns : List ℕ)
    → (first_denied ops ns ≡ none) ↔ All (IsAllowed ops false) (map v4 ns)
unfolding first_denied
first_denied_iff ops [] = (λ h. tt, λ h. refl)
first_denied_iff ops (n ∷ ns) = (
  λ h.
      let (a, b) = (or_denied-none (classify_ip ops false (v4 n)) (first_denied ops ns)).0 h in
      ((classify_ip_iff ops false (v4 n)).0 a, (first_denied_iff ops ns).0 b),
  λ h.
      (or_denied-none _ _).1
        ((classify_ip_iff ops false (v4 n)).1 h.0, (first_denied_iff ops ns).1 h.1),
)

first_never_lan :
    (ops : IpOps) (ns : List ℕ)
    → first_never ops true ns ≡ none
    → All (IsAllowed ops true) (map v4 ns)
unfolding first_never
first_never_lan ops [] h = tt
first_never_lan ops (n ∷ ns) h =
    let (a, b) =
      (or_denied-none (never_routed (classify_ip ops true (v4 n))) (first_never ops true ns)).0 h in
    (
      (classify_ip_iff ops true (v4 n)).0 (sym (never_routed_lan ops (v4 n)) ∙ a),
      first_never_lan ops ns b,
    )

-- The two loops of `classify_address` together.
embedded_iff :
    (ops : IpOps) (lan : Bool) (ns : List ℕ)
    → ((first_never ops lan ns ≡ none) × ((if lan then none else first_denied ops ns) ≡ none))
      ↔ All (IsAllowed ops lan) (map v4 ns)
embedded_iff ops true ns =
    (λ h. first_never_lan ops ns h.0, λ h. (first_never-none ops true ns h, refl))
embedded_iff ops false ns = (
  λ h. (first_denied_iff ops ns).0 h.1,
  λ h. (first_never-none ops false ns h, (first_denied_iff ops ns).1 h),
)

All-snoc : (P : Ip → Type 0) (xs : List Ip) (x : Ip) → All P (xs ++ (x ∷ [])) ↔ (All P xs × P x)
All-snoc P [] x = (λ h. (tt, h.0), λ h. (h.1, tt))
All-snoc P (y ∷ xs) x = (
  λ h. let (a, b) = (All-snoc P xs x).0 h.1 in ((h.0, a), b),
  λ h. (h.0.0, (All-snoc P xs x).1 (h.0.1, h.1)),
)

parsed_iff :
    (ops : IpOps) (lan : Bool) (ip : Ip)
    → (classify_parsed ops lan ip ≡ none) ↔ All (IsAllowed ops lan) (faces ip)
unfolding classify_parsed
parsed_iff ops lan (v4 n) =
    (λ h. ((classify_ip_iff ops lan (v4 n)).0 h, tt), λ h. (classify_ip_iff ops lan (v4 n)).1 h.0)
parsed_iff ops lan (v6 n) = (
  λ h.
      let (a, rest) = (or_denied-none (first_never ops lan (embedded_v4 n)) _).0 h in
      let (b, c) =
        (or_denied-none (if lan then none else first_denied ops (embedded_v4 n))
            (classify_ip ops lan (unmapped (mapped n) n))).0
          rest in
      (All-snoc (IsAllowed ops lan) (map v4 (embedded_v4 n)) (unmapped (mapped n) n)).1 (
        (embedded_iff ops lan (embedded_v4 n)).0 (a, b),
        (classify_ip_iff ops lan (unmapped (mapped n) n)).0 c,
      ),
  λ h.
      let (e, c) =
        (All-snoc (IsAllowed ops lan) (map v4 (embedded_v4 n)) (unmapped (mapped n) n)).0 h in
      let (a, b) = (embedded_iff ops lan (embedded_v4 n)).1 e in
      (or_denied-none _ _).1
        (a, (or_denied-none _ _).1 (b, (classify_ip_iff ops lan (unmapped (mapped n) n)).1 c)),
)

-- A text is let through exactly where it reads as an address that is allowed, with every IPv4 address
-- that is hidden in it (mapped, NAT64, 6to4 and both ends of Teredo).
pub IsAllowed-iff :
    (ops : IpOps) (lan : Bool) (address : Text)
    → (classify_address ops lan address ≡ none) ↔ (
        (ip : Ip) × (ops.parse (before_percent address) ≡ some ip)
        × All (IsAllowed ops lan) (faces ip))
unfolding classify_address
IsAllowed-iff ops lan address = by_parse (ops.parse (before_percent address))
  where
    by_parse :
        (p : Option Ip)
        → (of_parsed ops lan p ≡ none)
          ↔ ((ip : Ip) × (p ≡ some ip) × All (IsAllowed ops lan) (faces ip))
    by_parse none = (λ h. absurd (ground (arith, h)), λ h. absurd (ground (arith, h.1)))
    by_parse (some ip) = (
      λ h. (ip, refl, (parsed_iff ops lan ip).0 h),
      λ h.
          (parsed_iff ops lan ip).1
            (subst (λ j. All (IsAllowed ops lan) (faces j)) (some_inj (sym h.1)) h.2),
    )
