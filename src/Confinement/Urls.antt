-- ===== src/Confinement/Urls.antt =====
-- `build_url` of worlds/confinement.py.
use personal_world.Prelude.{
  ℕ, Text, String, Bool, true, false, Option, none, some, List, [], ◌∷◌, ◌++◌, ◌&&◌, ◌||◌, not,
  ◌==◌, nat_eq, nat_beq, any, codes, starts_with, same_text, if◌then◌else◌,
}
use personal_world.Tx.{Result, ok, err}
use personal_world.Config.Models.{Provider}
use personal_world.Confinement.Base.{
  Split, Env, Stop, stopped, crashed, ◌>>=◌, ◌>>◌, deny, deny_if, contains, split_at, has_char,
  is_empty,
}

-- The tuple that `build_url` returns
pub record Destination : Type 0 where
  pub scheme : Text
  pub host : Text
  pub port : ℕ
  pub target : Text

abbrev pub no_host : Option Text → Bool
no_host none = true
no_host (some h) = is_empty h

-- `port or default`
abbrev pub or_default : ℕ → Option ℕ → ℕ
or_default d none = d
or_default d (some ℕ.zero) = d
or_default d (some (ℕ.suc n)) = ℕ.suc n

abbrev pub default_port : Text → ℕ
default_port scheme = if same_text scheme (codes "https") then 443 else 80

abbrev pub read_port : Env → Split → Option (Option ℕ) → Result Stop ℕ
read_port env base none = err (stopped (deny env (codes "provider base_url has an invalid port")))
read_port env base (some p) = ok (or_default (default_port base.scheme) p)

abbrev odd_char : ℕ → Bool
odd_char c = (c == 13) || (c == 10) || (c == 9) || (c == b' ') || (c == b'#')

-- The path is not a plain relative path.
unfoldable pub is_odd_path : Text → Bool
unfolding starts_with any
is_odd_path path =
    not (starts_with path (b'/' ∷ []))
    || starts_with path (b'/' ∷ b'/' ∷ [])
    || has_char b'\\' path
    || has_char b'@' path
    || any odd_char path
    || has_char b'?' path

abbrev is_dots : Text → Bool
is_dots s = same_text s (b'.' ∷ b'.' ∷ []) || same_text s (b'.' ∷ [])

-- The path escapes its prefix.
unfoldable pub escapes : Env → Text → Bool
unfolding split_at contains any same_text
escapes env path =
    any is_dots (split_at b'/' path)
    || contains (codes "%2e") (env.lower path)
    || contains (codes "%2f") (env.lower path)
    || contains (codes "%5c") (env.lower path)
    || contains (codes "%00") (env.lower path)

abbrev is_up : Text → Bool
is_up s = same_text s (b'.' ∷ b'.' ∷ [])

unfoldable pub unsafe_prefix : Text → Bool
unfolding split_at contains any same_text
unsafe_prefix prefix =
    not (is_empty prefix)
    && (any is_up (split_at b'/' prefix) || has_char b'\\' prefix || contains (codes "://") prefix)

abbrev pub with_query : Env → List (String × String) → Text
with_query env [] = []
with_query env (q ∷ query) = env.encode_query (q ∷ query)

abbrev pub asked : Text → Text
asked [] = []
asked (c ∷ query) = b'?' ∷ c ∷ query

abbrev pub same_host : Option Text → Option Text → Bool
same_host none none = true
same_host (some a) (some b) = same_text a b
same_host _ _ = false

-- `check.port or port`, which raises as `base.port` does
abbrev pub same_port : ℕ → Option (Option ℕ) → Result Stop Bool
same_port port none = err (crashed (codes "ValueError"))
same_port port (some p) = ok (nat_beq (or_default port p) port)

abbrev pub host_text : Option Text → Text
host_text none = []
host_text (some h) = h

-- The joined URL is read again and compared with the base.
unfoldable pub recheck : Env → Split → ℕ → Text → Result Stop (Unit {0})
unfolding same_text
recheck env base port joined = do
  let check = env.urlsplit joined
  port_kept ← same_port port check.port
  deny_if env
      (not
        (same_text check.scheme base.scheme && same_host check.hostname base.hostname && port_kept))
      (codes "joined URL changed the provider destination")

unfoldable pub full_path : Env → Split → Provider → Text → Text
full_path env base provider path =
    env.rstrip_slash base.path ++ (env.rstrip_slash (codes provider.path_prefix) ++ path)

-- `build_url`, at a path and a query: those of a request, or of `_AuthEndpoint`
unfoldable pub build_url : Env → Provider → Text → List (String × String) → Result Stop Destination
unfolding is_odd_path escapes unsafe_prefix recheck full_path same_text
build_url env provider path query = do
  let base = env.urlsplit (codes provider.base_url)
  deny_if env
      (not (same_text base.scheme (codes "http") || same_text base.scheme (codes "https"))
        || no_host base.hostname)
      (codes "provider base_url must be http(s) with a host")
  deny_if env (base.has_userinfo || not (is_empty base.fragment) || not (is_empty base.query))
      (codes "provider base_url must not carry userinfo, query or fragment")
  port ← read_port env base base.port
  deny_if env (port == 0) (codes "port 0 is not allowed")
  deny_if env (is_odd_path path) (codes "request path is not a plain relative path")
  deny_if env (escapes env path) (codes "request path escapes its prefix")
  deny_if env (unsafe_prefix (env.rstrip_slash (codes provider.path_prefix)))
      (codes "provider path_prefix is not safe")
  let target = full_path env base provider path ++ asked (with_query env query)
  recheck env base port (base.scheme ++ (codes "://" ++ (base.netloc ++ target)))
  ok (record { scheme = base.scheme; host = host_text base.hostname; port = port; target = target })
