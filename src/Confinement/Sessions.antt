-- ===== src/Confinement/Sessions.antt =====
-- The credentials that a process holds: `_SESSIONS` of worlds/confinement.py.
use text.Mathlib.TextEquality.{eq_iff}
use personal_world.Prelude.{
  ℕ, String, Text, Bool, true, false, Option, none, some, List, [], ◌∷◌, ◌&&◌, not, leb, ◌≡◌, ◌↔◌,
  arith, Eq, ◌==◌, string_eq, length, dict_get, dict_put, dict_del, is_some, if◌then◌else◌,
}
use personal_world.Config.Models.{
  Provider, AuthType, no_auth, bearer, header, basic, cookie_session, password_grant,
}

abbrev pub strings_beq : List String → List String → Bool
strings_beq [] [] = true
strings_beq [] (t ∷ ts) = false
strings_beq (s ∷ ss) [] = false
strings_beq (s ∷ ss) (t ∷ ts) = s == t && strings_beq ss ts

pub strings_beq_iff : (a b : List String) → (strings_beq a b ≡ true) ↔ (a ≡ b)
strings_beq_iff [] [] = ground arith
strings_beq_iff [] (t ∷ ts) = ground arith
strings_beq_iff (s ∷ ss) [] = ground arith
strings_beq_iff (s ∷ ss) (t ∷ ts) = ground (arith, eq_iff s t, strings_beq_iff ss ts)

instance abbrev pub strings_eq : Eq (List String)
strings_eq = record { beq = strings_beq; beq_iff = strings_beq_iff }

-- `_SESSION_MAX`
abbrev pub session_max : ℕ
session_max = 256

abbrev type_name : AuthType → String
type_name no_auth = "none"
type_name bearer = "bearer"
type_name header = "header"
type_name basic = "basic"
type_name cookie_session = "cookie_session"
type_name password_grant = "password_grant"

abbrev str_of : Option String → String
str_of none = "None"
str_of (some s) = s

abbrev or_empty : Option String → String
or_empty none = ""
or_empty (some s) = s

-- `_session_key`
unfoldable pub session_key : Provider → List String
session_key p =
    p.id
    ∷ p.base_url
    ∷ p.path_prefix
    ∷ type_name p.auth.type
    ∷ str_of p.auth.secret_ref
    ∷ or_empty p.auth.login_path
    ∷ or_empty p.auth.token_path
    ∷ []

abbrev pub Held : Type 0
Held = List (List String × Text)

abbrev pub without_oldest : Held → Held
without_oldest [] = []
without_oldest (h ∷ held) = held

-- `_session_take`
abbrev pub session_take : List String → Held → Option Text
session_take key held = dict_get key held

-- `_session_keep`
unfoldable pub session_keep : List String → Text → Held → Held
unfolding dict_get dict_put
session_keep key credential held = dict_put key credential (
    if not (is_some (dict_get key held)) && leb session_max (length held)
    then without_oldest held
    else held)

-- `_session_forget`
abbrev pub session_forget : List String → Held → Held
session_forget key held = dict_del key held
