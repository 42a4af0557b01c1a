-- ===== src/Confinement/Confined.antt =====
-- What an exchange of worlds/confinement.py keeps to.
use personal_world.Prelude.{
  String, Text, Bool, true, Option, none, some, [], ◌∷◌, ◌++◌, ◌≡◌, refl, arith, codes, subst,
  Bool-cases, inl, inr, same_text_iff, same_text, string_eq, dict_put, if◌then◌else◌,
}
use personal_world.Tx.{ok}
use personal_world.Config.Models.{Provider, Request, post}
use personal_world.Confinement.Base.{Env, is_empty}
use personal_world.Confinement.Urls.{build_url}
use personal_world.Confinement.Guards.{Ready}
use personal_world.Confinement.Credentials.{auth_pair}
use personal_world.Confinement.Exchanges.{Purpose, login, request, Exchange, bracketed}
use personal_world.Confinement.Login.{
  is_cookie, login_headers, login_form, path_or, same_destination, auth_path,
}
use personal_world.Confinement.Urls.{Destination}
use personal_world.Confinement.Joined.{IsJoined, build_url_sound}

-- The URL of an exchange: the pinned address stands in it, whatever the host is called.
abbrev pub dialled : Env → Ready → Text → Text
dialled env ready target =
    ready.scheme
    ++ (codes "://" ++ (bracketed ready.pinned ++ (b':' ∷ (env.number ready.port ++ target))))

-- Where a login goes: the path is the one that the provider configures, `build_url` lets it
-- through on the provider's scheme, host and port, and these are the ones of the request.
pub record IsLoginTarget (env : Env) (provider : Provider) (ready : Ready) (target : Text)
    : Type 0 where
  pub path : String
  pub configured : auth_path provider.auth (is_cookie provider.auth.type) ≡ some path
  pub destination : Destination
  pub joined : IsJoined env provider (codes path) destination
  pub same_scheme : destination.scheme ≡ ready.scheme
  pub same_host : destination.host ≡ ready.host
  pub same_port : destination.port ≡ ready.port
  pub same_target : target ≡ destination.target

-- A login is a POST of the provider's own credential to its own login or token path, with headers
-- of its own; the request goes to the target that was vetted, under its own method.
abbrev pub Carries : Env → Provider → Request → Ready → Exchange → Purpose → Type 0
Carries env provider r ready x login =
    (x.method ≡ post)
    × (x.headers ≡ dict_put "Accept-Encoding" (codes "identity") (login_headers env ready))
    × ((pair : Text × Text) × (auth_pair env provider.auth ≡ ok pair)
        × (x.content ≡ some (env.form (login_form provider.auth pair))))
    × ((target : Text) × (x.url ≡ dialled env ready target)
        × IsLoginTarget env provider ready target)
Carries env provider r ready x request =
    (x.method ≡ r.method) × (x.url ≡ dialled env ready ready.target)

pub record IsConfined (env : Env) (provider : Provider) (r : Request) (ready : Ready) (x : Exchange)
    : Type 0 where
  pub named : x.sni ≡ (if same_text ready.scheme (codes "https") then some ready.host else none)
  pub verified : x.verify ≡ provider.tls_verify
  pub limited : x.limit ≡ provider.max_bytes
  pub carries : Carries env provider r ready x x.purpose

path_or-eq-ok :
    (cookie : Bool) (o : Option String) {path : Text}
    → path_or cookie o ≡ ok path
    → (p : String) × (o ≡ some p) × (path ≡ codes p)
path_or-eq-ok cookie none h = absurd (ground (arith, h))
path_or-eq-ok cookie (some p) h = elim (Bool-cases (is_empty (codes p))) [
  | inl e ↦ absurd (ground (arith, h, e))
  | inr e ↦ (p, refl, ground (arith, h, e))
]

-- The tests of `_authenticate` before its exchange
pub login_target :
    (env : Env) (provider : Provider) (ready : Ready) {path : Text} {d : Destination}
    → path_or
        (is_cookie provider.auth.type)
        (auth_path provider.auth (is_cookie provider.auth.type))
      ≡ ok path
    → build_url env provider path [] ≡ ok d
    → same_destination d ready ≡ true
    → IsLoginTarget env provider ready d.target
login_target env provider ready {path} {d} h k same =
    let (p, e, f) =
      path_or-eq-ok (is_cookie provider.auth.type)
        (auth_path provider.auth (is_cookie provider.auth.type)) h in
    record {
      path = p;
      configured = e;
      destination = d;
      joined = subst (λ z. IsJoined env provider z d) f (build_url_sound env provider path [] k);
      same_scheme = (same_text_iff d.scheme ready.scheme).0 (ground (arith, same));
      same_host = (same_text_iff d.host ready.host).0 (ground (arith, same));
      same_port = ground (arith, same);
      same_target = refl;
    }
