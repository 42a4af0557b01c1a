-- ===== src/Confinement/Joined.antt =====
-- What `build_url` of worlds/confinement.py has made sure of.
use personal_world.Prelude.{
  ℕ, Text, String, Bool, true, false, Option, none, some, List, ◌++◌, ◌&&◌, ◌||◌, not, ◌==◌, nat_eq,
  nat_beq_iff, ◌≡◌, refl, arith, ap, sym, ◌∙◌, subst, codes, same_text, same_text_iff,
}
use personal_world.Tx.{ok, ok_inj}
use personal_world.Config.Models.{Provider}
use personal_world.Confinement.Base.{Split, Env, when_ok, deny_if, is_empty}
use personal_world.Confinement.Urls.{
  Destination, no_host, or_default, default_port, read_port, is_odd_path, escapes, unsafe_prefix,
  with_query, asked, same_host, same_port, host_text, recheck, full_path, build_url,
}

pub deny_if-eq-ok :
    (env : Env) (b : Bool) (note : Text) {u : Unit {0}} → deny_if env b note ≡ ok u → b ≡ false
deny_if-eq-ok env true note h = absurd (ground (arith, h))
deny_if-eq-ok env false note h = refl

abbrev base_of : Env → Provider → Split
base_of env provider = env.urlsplit (codes provider.base_url)

-- The URL of a destination, as it is read again
abbrev again : Env → Provider → Destination → Split
again env provider d =
    env.urlsplit (d.scheme ++ (codes "://" ++ ((base_of env provider).netloc ++ d.target)))

-- What holds of a destination, and of its URL when that is read again
pub record IsJoined (env : Env) (provider : Provider) (path : Text) (d : Destination) : Type 0 where
  pub same_scheme : d.scheme ≡ (base_of env provider).scheme
  pub is_http : (same_text d.scheme (codes "http") || same_text d.scheme (codes "https")) ≡ true
  pub same_hostname : (base_of env provider).hostname ≡ some d.host
  pub has_host : is_empty d.host ≡ false
  pub no_userinfo : (base_of env provider).has_userinfo ≡ false
  pub at_port :
      (p : Option ℕ) × ((base_of env provider).port ≡ some p)
      × (d.port ≡ or_default (default_port d.scheme) p)
  pub plain : is_odd_path path ≡ false
  pub stays : escapes env path ≡ false
  pub again_scheme : (again env provider d).scheme ≡ d.scheme
  pub again_host : (again env provider d).hostname ≡ some d.host
  pub again_port :
      (p : Option ℕ) × ((again env provider d).port ≡ some p) × (or_default d.port p ≡ d.port)

read_port-eq-ok :
    (env : Env) (base : Split) (o : Option (Option ℕ)) {port : ℕ}
    → read_port env base o ≡ ok port
    → (p : Option ℕ) × (o ≡ some p) × (port ≡ or_default (default_port base.scheme) p)
read_port-eq-ok env base none h = absurd (ground (arith, h))
read_port-eq-ok env base (some p) h = (p, refl, sym (ok_inj h))

same_port-eq-ok :
    (port : ℕ) (o : Option (Option ℕ)) {kept : Bool}
    → same_port port o ≡ ok kept
    → kept ≡ true
    → (p : Option ℕ) × (o ≡ some p) × (or_default port p ≡ port)
same_port-eq-ok port none h k = absurd (ground (arith, h))
same_port-eq-ok port (some p) h k =
    (p, refl, (nat_beq_iff (or_default port p) port).0 (ok_inj h ∙ k))

same_host_eq : (a b : Option Text) → same_host a b ≡ true → a ≡ b
same_host_eq none none h = refl
same_host_eq none (some b) h = absurd (ground (arith, h))
same_host_eq (some a) none h = absurd (ground (arith, h))
same_host_eq (some a) (some b) h = ap some ((same_text_iff a b).0 h)

host_some :
    (o : Option Text)
    → no_host o ≡ false
    → (o ≡ some (host_text o)) × (is_empty (host_text o) ≡ false)
host_some none h = absurd (ground (arith, h))
host_some (some t) h = (refl, h)

module _ (env : Env) (provider : Provider) (path : Text) (query : List (String × String)) where
  abbrev base : Split
  base = base_of env provider

  abbrev target : Text
  target = full_path env base provider path ++ asked (with_query env query)

  abbrev destination : ℕ → Destination
  destination port = record {
    scheme = base.scheme;
    host = host_text base.hostname;
    port = port;
    target = target;
  }

  recheck_sound :
      (port : ℕ) {u : Unit {0}}
      → recheck env base port (base.scheme ++ (codes "://" ++ (base.netloc ++ target))) ≡ ok u
      → ((again env provider (destination port)).scheme ≡ base.scheme)
        × ((again env provider (destination port)).hostname ≡ base.hostname)
        × ((p : Option ℕ) × ((again env provider (destination port)).port ≡ some p)
            × (or_default port p ≡ port))
  unfolding recheck
  recheck_sound port h =
      let check = again env provider (destination port) in
      when_ok (same_port port check.port) _ h (λ kept e k.
        let same : (same_text check.scheme base.scheme
              && same_host check.hostname base.hostname
              && kept)
            ≡ true =
          ground (
            arith,
            deny_if-eq-ok env
                (not (
                  same_text check.scheme base.scheme
                  && same_host check.hostname base.hostname
                  && kept))
                _ k,
          ) in
        (
          (same_text_iff check.scheme base.scheme).0 (ground (arith, same)),
          same_host_eq check.hostname base.hostname (ground (arith, same)),
          same_port-eq-ok port check.port e (ground (arith, same)),
        ))

  pub build_url_sound :
      {d : Destination} → build_url env provider path query ≡ ok d → IsJoined env provider path d
  unfolding build_url
  build_url_sound h0 =
      when_ok
        (deny_if env
          (not (same_text base.scheme (codes "http") || same_text base.scheme (codes "https"))
            || no_host base.hostname)
          _)
        _ h0
        (λ u1 e1 h1.
          when_ok
            (deny_if env
              (base.has_userinfo || not (is_empty base.fragment) || not (is_empty base.query)) _)
            _ h1
            (λ u2 e2 h2. when_ok (read_port env base base.port) _ h2 (λ port e3 h3.
              when_ok (deny_if env (port == 0) _) _ h3 (λ u4 e4 h4.
                when_ok (deny_if env (is_odd_path path) _) _ h4 (λ u5 e5 h5.
                  when_ok (deny_if env (escapes env path) _) _ h5 (λ u6 e6 h6.
                    when_ok
                      (deny_if env (unsafe_prefix (env.rstrip_slash (codes provider.path_prefix)))
                        _)
                      _ h6
                      (λ u7 e7 h7.
                        when_ok
                          (recheck env base port
                            (base.scheme ++ (codes "://" ++ (base.netloc ++ target))))
                          _ h7
                          (λ u8 e8 h8.
                            subst (IsJoined env provider path) (ok_inj h8)
                              (joined port e1 e2 e3 e5 e6 e8)))))))))
    where
      joined :
          (port : ℕ) {u1 u2 u5 u6 u8 : Unit {0}}
          → deny_if env
              (not (same_text base.scheme (codes "http") || same_text base.scheme (codes "https"))
                || no_host base.hostname)
              (codes "provider base_url must be http(s) with a host")
            ≡ ok u1
          → deny_if env
              (base.has_userinfo || not (is_empty base.fragment) || not (is_empty base.query))
              (codes "provider base_url must not carry userinfo, query or fragment")
            ≡ ok u2
          → read_port env base base.port ≡ ok port
          → deny_if env (is_odd_path path) (codes "request path is not a plain relative path")
            ≡ ok u5
          → deny_if env (escapes env path) (codes "request path escapes its prefix") ≡ ok u6
          → recheck env base port (base.scheme ++ (codes "://" ++ (base.netloc ++ target))) ≡ ok u8
          → IsJoined env provider path (destination port)
      joined port e1 e2 e3 e5 e6 e8 =
          let t1 =
            deny_if-eq-ok env
              (not (same_text base.scheme (codes "http") || same_text base.scheme (codes "https"))
                || no_host base.hostname)
              _ e1 in
          let t2 =
            deny_if-eq-ok env
              (base.has_userinfo || not (is_empty base.fragment) || not (is_empty base.query)) _
              e2 in
          let (named, filled) = host_some base.hostname (ground (arith, t1)) in
          let (scheme_kept, host_kept, port_kept) = recheck_sound port e8 in
          record {
            same_scheme = refl;
            is_http = ground (arith, t1);
            same_hostname = named;
            has_host = filled;
            no_userinfo = ground (arith, t2);
            at_port = read_port-eq-ok env base base.port e3;
            plain = deny_if-eq-ok env (is_odd_path path) _ e5;
            stays = deny_if-eq-ok env (escapes env path) _ e6;
            again_scheme = scheme_kept;
            again_host = host_kept ∙ named;
            again_port = port_kept;
          }
