-- ===== src/Authn/Principal.antt =====
-- `Principal` of worlds/authn.py. Times are whole seconds; `now - t <= d` is written `now ≤ t + d`,
-- which also holds where `t` lies in the future.
use personal_world.Prelude.{
  ℕ, ◌+◌, String, Bool, true, false, Option, none, some, List, ◌&&◌, ◌||◌, not, leb, any, codes,
  starts_with, ends_with, but_last, same_text, if◌then◌else◌,
}

pub data Kind : Type 0 where
  owner agent : Kind

pub data Via : Type 0 where
  session token : Via

pub record Principal : Type 0 where
  pub kind : Kind
  pub id : String
  pub scopes : List String
  pub session_hash : Option String
  pub step_up_at : Option ℕ
  pub via : Via

abbrev pub step_up_seconds : ℕ
step_up_seconds = 300

abbrev kind_is_owner : Kind → Bool
kind_is_owner owner = true
kind_is_owner agent = false

abbrev pub via_session : Via → Bool
via_session session = true
via_session token = false

abbrev pub is_owner : Principal → Bool
is_owner p = kind_is_owner p.kind

abbrev fresh_step_up : ℕ → Option ℕ → Bool
fresh_step_up now none = false
fresh_step_up now (some at) = leb now (at + step_up_seconds)

unfoldable pub has_step_up : Principal → ℕ → Bool
has_step_up p now =
    if not (is_owner p) || not (via_session p.via) then false else fresh_step_up now p.step_up_at

-- The test of one granted scope: equal, a prefix that ends in `.*`, or `*`.
unfoldable pub covers : String → String → Bool
unfolding starts_with ends_with but_last same_text
covers granted scope =
    same_text (codes granted) (codes scope)
    || (ends_with (codes granted) (codes ".*")
        && starts_with (codes scope) (but_last (codes granted)))
    || same_text (codes granted) (codes "*")

unfoldable pub allows_scope : Principal → String → Bool
unfolding any covers
allows_scope p scope = if is_owner p then true else any (λ granted. covers granted scope) p.scopes
