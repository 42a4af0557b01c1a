-- ===== src/Confinement/Credentials.antt =====
-- The credential headers of worlds/confinement.py: `_auth_headers` and `_auth_pair`.
use personal_world.Prelude.{
  ℕ, Text, String, Bool, true, false, Option, none, some, List, [], ◌∷◌, ◌++◌, ◌||◌, not, ◌==◌,
  nat_eq, nat_beq, ltb, any, all, codes, string_eq, if◌then◌else◌,
}
use personal_world.Tx.{Result, ok, err}
use personal_world.Config.Models.{Auth, AuthType, no_auth, bearer, header, basic}
use personal_world.Dispatch.Rows.{ErrorClass, auth_failed, confinement_denied}
use personal_world.Confinement.Base.{Env, Stop, stopped, ◌>>=◌, ◌>>◌, is_empty}

-- A refusal of a credential has no duration.
abbrev pub bare : ErrorClass → Text → Bool → Stop
bare class note pre = stopped (record {
  error_class = class;
  note = note;
  status_code = none;
  duration_ms = none;
  pre_send = pre;
})

abbrev pub no_credential : {A : Type 0} → Text → Result Stop A
no_credential note = err (bare auth_failed note true)

abbrev pub refuse_if : Bool → Text → Result Stop (Unit {0})
refuse_if true note = no_credential note
refuse_if false note = ok tt

abbrev pub secret_or : Text → Option Text → Result Stop Text
secret_or note none = no_credential note
secret_or note (some []) = no_credential note
secret_or note (some (c ∷ t)) = ok (c ∷ t)

abbrev beyond_ascii : Text → Bool
beyond_ascii t = not (all (λ c. ltb c 128) t)

abbrev pub is_control : ℕ → Bool
is_control c = ltb c 32 || nat_beq c 127

abbrev or_unnamed : Option String → String
or_unnamed none = ""
or_unnamed (some n) = n

abbrev named_header : Env → String → Text → Result Stop (List (String × Text))
named_header env name value =
    if env.header_name_ok (codes name)
    then ok ((name, value) ∷ [])
    else err (bare confinement_denied (codes "credential header name is not allowed") true)

abbrev by_type : Env → Auth → AuthType → Text → Result Stop (List (String × Text))
by_type env auth bearer value = ok (("Authorization", codes "Bearer " ++ value) ∷ [])
by_type env auth header value = named_header env (or_unnamed auth.header_name) value
by_type env auth basic value = ok (("Authorization", codes "Basic " ++ env.base64 value) ∷ [])
by_type env auth t value = err (bare auth_failed (codes "unknown auth type") false)

abbrev from_secret : Env → Auth → AuthType → Result Stop (List (String × Text))
from_secret env auth no_auth = ok []
from_secret env auth t = do
  value ← secret_or (codes "credential is not available") (env.secret auth.secret_ref)
  refuse_if (beyond_ascii value) (codes "credential contains characters that cannot be sent")
  refuse_if (any is_control value) (codes "credential contains control characters")
  by_type env auth t value

-- `_auth_headers`
unfoldable pub auth_headers : Env → Auth → Result Stop (List (String × Text))
unfolding any all
auth_headers env auth = from_secret env auth auth.type

abbrev cut_colon : Text → Option (Text × Text)
cut_colon [] = none
cut_colon (c ∷ t) =
    let rest = cut_colon t in
    if c == b':' then some ([], t) else elim rest [ none ↦ none | some p ↦ some (c ∷ p.0, p.1) ]

abbrev both_parts : Text → Option (Text × Text) → Result Stop (Text × Text)
both_parts note none = no_credential note
both_parts note (some p) = if is_empty p.0 || is_empty p.1 then no_credential note else ok p

abbrev ref_text : Option String → Text
ref_text none = codes "(unset)"
ref_text (some r) = if is_empty (codes r) then codes "(unset)" else codes r

-- `_auth_pair`
unfoldable pub auth_pair : Env → Auth → Result Stop (Text × Text)
unfolding any all
auth_pair env auth = do
  let about = codes "credential for " ++ ref_text auth.secret_ref
  value ← secret_or (about ++ codes " is not available") (env.secret auth.secret_ref)
  refuse_if (beyond_ascii value) (about ++ codes " contains characters that cannot be sent")
  refuse_if (any is_control value) (about ++ codes " contains control characters")
  both_parts (about ++ codes " must be username:password") (cut_colon value)
