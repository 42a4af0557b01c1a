-- ===== src/Confinement/Base.antt =====
-- What worlds/confinement.py calls, its refusals, and text tests.
use personal_world.Prelude.{
  ℕ, Text, String, Bool, true, false, Option, none, some, List, [], ◌∷◌, ◌||◌, ◌≡◌, refl, arith,
  ◌==◌, nat_eq, any, starts_with, if◌then◌else◌,
}
use personal_world.Value.{Value}
use personal_world.Tx.{Result, ok, err}
use personal_world.Dispatch.Rows.{ErrorClass, confinement_denied, ConfinementError}
use personal_world.Confinement.Addresses.{IpOps}

-- `urlsplit`; a port that is no number raises (`none`)
pub record Split : Type 0 where
  pub scheme : Text
  pub hostname : Option Text
  pub port : Option (Option ℕ)
  pub netloc : Text
  pub path : Text
  pub has_userinfo : Bool
  pub fragment : Text
  pub query : Text

-- What the pool of name lookups gives
pub data Lookup : Type 0 where
  too_many timed_out failed : Lookup
  found : List Text → Lookup

-- The standard library, the clock and the secrets, as far as a call reads them. `elapsed` is the
-- reading of the clock where a note is made.
pub record Env : Type 0 where
  pub ip : IpOps
  pub urlsplit : Text → Split
  pub lower : Text → Text
  pub strip : Text → Text
  pub rstrip_slash : Text → Text
  pub encode_query : List (String × String) → Text  -- `urlencode(render_query(...))`
  pub lookup : Text → ℕ → Lookup
  pub principal_ok : String → Bool  -- `[A-Za-z0-9_-]{1,64}`
  pub repr : String → Text
  pub number : ℕ → Text
  pub elapsed : Text → ℕ
  pub secret : Option String → Option Text  -- `resolve_secret_ref`
  pub header_name_ok : Text → Bool  -- `check_auth_header_name`
  pub base64 : Text → Text
  pub form : List (String × Text) → List ℕ  -- `urlencode(...).encode()`
  pub dumps : Value → List ℕ
  pub loads : List ℕ → Option Value  -- decoded and parsed; none on an error

-- A call ends early with a `ConfinementError`, or an exception leaves it.
pub data Stop : Type 0 where
  stopped : ConfinementError → Stop
  crashed : Text → Stop  -- the name of its type

infixl 5 ◌>>=◌ ◌>>◌
abbrev pub ◌>>=◌ : {A B : Type 0} → Result Stop A → (A → Result Stop B) → Result Stop B
ok a >>= f = f a
err e >>= f = err e

abbrev pub ◌>>◌ : {B : Type 0} → Result Stop (Unit {0}) → Result Stop B → Result Stop B
m >> k = m >>= λ _. k

-- A chain that ends well went well at each step.
pub when_ok :
    {A B C : Type 0} (m : Result Stop A) (f : A → Result Stop B) {b : B}
    → (m >>= f) ≡ ok b
    → ((a : A) → m ≡ ok a → f a ≡ ok b → C)
    → C
when_ok (ok a) f h k = k a refl h
when_ok (err e) f h k = absurd (ground (arith, h))

abbrev pub fail : Env → ErrorClass → Text → Option ℕ → Bool → ConfinementError
fail env class note status pre = record {
  error_class = class;
  note = note;
  status_code = status;
  duration_ms = some (env.elapsed note);
  pre_send = pre;
}

-- `_deny`
abbrev pub deny : Env → Text → ConfinementError
deny env note = fail env confinement_denied note none true

-- `if test: return _deny(note, started)`
abbrev pub deny_if : Env → Bool → Text → Result Stop (Unit {0})
deny_if env true note = err (stopped (deny env note))
deny_if env false note = ok tt

-- `sub in t`
unfoldable pub contains : Text → Text → Bool
unfolding starts_with
contains sub [] = starts_with [] sub
contains sub (c ∷ t) = starts_with (c ∷ t) sub || contains sub t

abbrev add_char : ℕ → List Text → List Text
add_char c [] = (c ∷ []) ∷ []
add_char c (s ∷ rest) = (c ∷ s) ∷ rest

-- `t.split(c)`, for one character
unfoldable pub split_at : ℕ → Text → List Text
split_at sep [] = [] ∷ []
split_at sep (c ∷ t) = let rest = split_at sep t in if c == sep then [] ∷ rest else add_char c rest

abbrev pub has_char : ℕ → Text → Bool
has_char c t = any (λ d. d == c) t

abbrev pub is_empty : Text → Bool
is_empty [] = true
is_empty (c ∷ t) = false
