-- ===== src/Confinement/Prepared.antt =====
-- What `_prepare` of worlds/confinement.py has made sure of before anything is written.
use personal_world.Prelude.{
  Text, String, Bool, false, Option, none, some, List, [], ◌∷◌, ◌&&◌, not, ◌≡◌, refl, arith, ap,
  subst, All, codes, string_eq, dict_put,
}
use personal_world.Tx.{ok_inj, ok}
use personal_world.Config.Models.{Provider, Request, get_or_head, Effect, is_write}
use personal_world.Confinement.Addresses.{Ip, Denied, classify_address, before_percent}
use personal_world.Confinement.Allowed.{IsAllowed, faces, IsAllowed-iff}
use personal_world.Confinement.Base.{
  Lookup, too_many, timed_out, failed, found, Env, when_ok, deny_if,
}
use personal_world.Confinement.Urls.{Destination, build_url}
use personal_world.Confinement.Joined.{deny_if-eq-ok, IsJoined, build_url_sound}
use personal_world.Confinement.Guards.{
  Ready, is_forbidden, has_control, vet_headers, of_lookup, resolve_within, vet_one, vet_addresses,
  first_of, with_principal, own_headers, prepare,
}

-- The address that a text reads as is allowed, with all that is hidden in it.
abbrev pub Vetted : Env → Bool → Text → Type 0
Vetted env lan a =
    (ip : Ip) × (env.ip.parse (before_percent a) ≡ some ip) × All (IsAllowed env.ip lan) (faces ip)

vet_addresses-eq-ok :
    (env : Env) (lan : Bool) (addresses : List Text) {u : Unit {0}}
    → vet_addresses env lan addresses ≡ ok u
    → All (Vetted env lan) addresses
unfolding vet_addresses
vet_addresses-eq-ok env lan [] h = tt
vet_addresses-eq-ok env lan (a ∷ addresses) h =
    when_ok (vet_one env (classify_address env.ip lan a)) _ h (λ u e k. (
      (IsAllowed-iff env.ip lan a).0 (vet_one-eq-ok (classify_address env.ip lan a) e),
      vet_addresses-eq-ok env lan addresses k,
    ))
  where
    vet_one-eq-ok : (o : Option Denied) {u : Unit {0}} → vet_one env o ≡ ok u → o ≡ none
    vet_one-eq-ok none e = refl
    vet_one-eq-ok (some d) e = absurd (ground (arith, e))

of_lookup-eq-ok :
    (env : Env) (l : Lookup) {addresses : List Text}
    → of_lookup env l ≡ ok addresses
    → (rest : List Text) × (addresses ≡ first_of addresses ∷ rest) × (l ≡ found addresses)
of_lookup-eq-ok env too_many h = absurd (ground (arith, h))
of_lookup-eq-ok env timed_out h = absurd (ground (arith, h))
of_lookup-eq-ok env failed h = absurd (ground (arith, h))
of_lookup-eq-ok env (found []) h = absurd (ground (arith, h))
of_lookup-eq-ok env (found (a ∷ rest)) {addresses} h =
    let e : a ∷ rest ≡ addresses = ok_inj h in
    (rest, subst (λ z. z ≡ first_of z ∷ rest) e refl, ap found e)

-- A header of the caller that may travel
abbrev pub MayTravel : Env → String × String → Type 0
MayTravel env h = (is_forbidden env h.0 ≡ false) × (has_control h ≡ false)

vet_headers-eq-ok :
    (env : Env) (acc : List (String × Text)) (hs : List (String × String))
    {out : List (String × Text)}
    → vet_headers env acc hs ≡ ok out
    → All (MayTravel env) hs
unfolding vet_headers
vet_headers-eq-ok env acc [] h = tt
vet_headers-eq-ok env acc (x ∷ hs) h = when_ok (deny_if env (is_forbidden env x.0) _) _ h (λ u e k.
    when_ok (deny_if env (has_control x) _) _ k (λ v f l. (
      (deny_if-eq-ok env (is_forbidden env x.0) _ e, deny_if-eq-ok env (has_control x) _ f),
      vet_headers-eq-ok env (dict_put x.0 (codes x.1) acc) hs l,
    )))

-- What holds of a request that `_prepare` has let through
pub record IsPrepared (env : Env) (provider : Provider) (r : Request) (effect : Effect)
    (ready : Ready) : Type 0 where
  pub method_fits : (not (is_write effect) && not (get_or_head r.method)) ≡ false
  pub destination : IsJoined env provider (codes r.path) (record {
    scheme = ready.scheme;
    host = ready.host;
    port = ready.port;
    target = ready.target;
  })
  pub may_travel : All (MayTravel env) r.headers
  pub addresses : List Text
  pub resolved : env.lookup ready.host ready.port ≡ found addresses
  pub vetted : All (Vetted env provider.network.lan) addresses
  pub pinned_first : (rest : List Text) × (addresses ≡ ready.pinned ∷ rest)

pub prepare_sound :
    (env : Env) (provider : Provider) (r : Request) (effect : Effect) {ready : Ready}
    → prepare env provider r effect ≡ ok ready
    → IsPrepared env provider r effect ready
unfolding prepare resolve_within
prepare_sound env provider r effect {ready} h0 =
    when_ok (deny_if env (not (is_write effect) && not (get_or_head r.method)) _) _ h0 (λ u e1 h1.
      when_ok (build_url env provider (codes r.path) r.query) _ h1 (λ d e2 h2.
        when_ok (vet_headers env [] r.headers) _ h2 (λ headers e3 h3.
          when_ok (resolve_within env d.host d.port) _ h3 (λ addresses e4 h4.
            when_ok (vet_addresses env provider.network.lan addresses) _ h4 (λ v e5 h5.
              when_ok (with_principal env provider.kind provider.principal_id headers) _ h5
                (λ given e6 h6.
                  subst (IsPrepared env provider r effect) (ok_inj h6)
                    (prepared d headers addresses given e1 e2 e3 e4 e5)))))))
  where
    prepared :
        (d : Destination) (headers : List (String × Text)) (addresses : List Text)
        (given : List (String × Text)) {u v : Unit {0}}
        → deny_if env
            (not (is_write effect) && not (get_or_head r.method))
            (codes "a read effect cannot send a mutating method")
          ≡ ok u
        → build_url env provider (codes r.path) r.query ≡ ok d
        → vet_headers env [] r.headers ≡ ok headers
        → resolve_within env d.host d.port ≡ ok addresses
        → vet_addresses env provider.network.lan addresses ≡ ok v
        → IsPrepared env provider r effect (record {
          scheme = d.scheme;
          host = d.host;
          port = d.port;
          pinned = first_of addresses;
          target = d.target;
          headers = own_headers env d given;
        })
    prepared d headers addresses given e1 e2 e3 e4 e5 =
        let (rest, p, found_there) = of_lookup-eq-ok env (env.lookup d.host d.port) e4 in
        record {
          method_fits = deny_if-eq-ok env _ _ e1;
          destination = build_url_sound env provider (codes r.path) r.query e2;
          may_travel = vet_headers-eq-ok env [] r.headers e3;
          addresses = addresses;
          resolved = found_there;
          vetted = vet_addresses-eq-ok env provider.network.lan addresses e5;
          pinned_first = (rest, p);
        }
