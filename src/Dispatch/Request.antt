-- ===== src/Dispatch/Request.antt =====
-- `request_authorization` and `get_authorization` of worlds/dispatcher.py.
use personal_world.Prelude.{
  ℕ, ◌+◌, String, Text, Bool, true, false, Option, none, some, [], ◌∷◌, ◌++◌, ◌&&◌, ◌||◌, not, ◌==◌,
  nat_eq, string_eq, leb, ltb, elem, length, take, codes, if◌then◌else◌,
}
use personal_world.Tx.{Result, ok, err, Op, ◌>>=◌, ◌>>◌, write_tx}
use personal_world.Value.{Value, obj, end, field}
use personal_world.Authn.Principal.{Principal, is_owner}
use personal_world.Config.Models.{
  Provider, Access, write_access, Approval, never, Idempotency, required, resolved_effect, is_write,
  get_or_head,
}
use personal_world.Config.Store.{version_of}
use personal_world.Dispatch.Rows.{
  Authorization, pending, approved, policy_never, Db, Error, not_permitted, bad_request, integrity,
  Codec, Dispatcher, max_params_bytes,
}
use personal_world.Dispatch.Base.{Target, row, resolve, can_see, find_auth}

-- `params_hash`
unfoldable pub params_hash : Codec → Value → String
params_hash c params = c.sha256 (codes (c.dumps params))

-- `destination_of`
unfoldable pub destination_of : Codec → Provider → Text
destination_of c p =
    codes p.id ++ codes ":" ++ take 16 (codes (c.sha256 (codes p.base_url ++ codes p.path_prefix)))

abbrev is_object : Value → Bool
is_object (obj fs) = true
is_object _ = false

-- `bool(params)`, at a dict
abbrev pub has_params : Value → Bool
has_params (obj (field k v rest)) = true
has_params _ = false

-- `{} if params is None else params`
abbrev pub or_empty : Option Value → Value
or_empty none = obj end
or_empty (some v) = v

abbrev is_required : Idempotency → Bool
is_required required = true
is_required _ = false

abbrev is_never : Approval → Bool
is_never never = true
is_never _ = false

abbrev pub may_write : Access → Bool
may_write write_access = true
may_write _ = false

-- `not idempotency_key`
abbrev pub no_key : Option String → Bool
no_key none = true
no_key (some k) = k == ""

abbrev has_body : Option Value → Bool
has_body none = false
has_body (some v) = true

abbrev key_ok : Codec → Option String → Bool
key_ok c none = true
key_ok c (some k) =
    leb 1 (length (codes k))
    && leb (length (codes k)) 200
    && c.printable k
    && not (elem 13 (codes k))
    && not (elem 10 (codes k))

abbrev is_none : Option ℕ → Bool
is_none none = true
is_none (some n) = false

-- The refusals before anything is written, in the code's order.
unfoldable pub check_request :
    Dispatcher → Principal → Target → Value → Option String → Result Error (Unit {0})
unfolding elem
check_request d p t params key =
    if not (can_see p t.action)
    then err not_permitted
    else if not (is_object params) || ltb max_params_bytes (d.codec.size (d.codec.dumps params))
    then err bad_request
    else if has_params params && (has_body t.request.body || get_or_head t.request.method)
    then err bad_request
    else if is_required t.action.idempotency && no_key key
    then err bad_request
    else if not (key_ok d.codec key)
    then err bad_request
    else ok tt

-- `auto`: the owner's configuration waives the approval.
unfoldable pub auto_approved : Dispatcher → Principal → Target → Option ℕ → Bool
auto_approved d p t retry_of =
    let write_effect = is_write (resolved_effect t.request) in
    let waived_write = t.action.owner_waives_approval && may_write t.action.access && is_owner p in
    is_never t.action.approval
    && is_none retry_of
    && not (d.ph_governs t.provider)
    && (not write_effect || waived_write)
    && not (write_effect && not (may_write t.action.access))

-- The row that is inserted.
unfoldable pub new_authorization :
    Dispatcher
    → Principal
    → String
    → Target
    → String
    → Value
    → Option String
    → Option ℕ
    → Bool
    → ℕ
    → ℕ
    → Authorization
unfolding destination_of params_hash
new_authorization d p action_id t version params key retry_of warn now aid =
    let auto = auto_approved d p t retry_of in
    record {
      id = aid;
      action_id = action_id;
      action_version = version;
      caller = p.id;
      destination = destination_of d.codec t.provider;
      params_hash = params_hash d.codec params;
      params_json = d.codec.dumps params;
      created_at = now;
      expires_at = now + d.ttl;
      state = if auto then approved else pending;
      authority = if auto then some policy_never else none;
      approved_at = if auto then some now else none;
      approved_by = if auto then some "policy:never" else none;
      step_up_at = none;
      idempotency_key = key;
      retry_of = retry_of;
      previous_may_have_run = warn;
    }

abbrev insert_if_new : Authorization → Option Authorization → Op Db Error (Unit {0})
insert_if_new a none db = (ok tt, record db { authorizations = db.authorizations ++ a ∷ [] })
insert_if_new a (some b) db = (err integrity, db)

-- INSERT INTO authorizations, under the primary key
unfoldable pub insert_authorization : Authorization → Op Db Error (Unit {0})
insert_authorization a db = insert_if_new a (find_auth a.id db) db

-- `action_version` is NOT NULL.
abbrev version_or_integrity : Option String → Result Error String
version_or_integrity none = err integrity
version_or_integrity (some v) = ok v

-- `get_authorization`
unfoldable pub get_authorization : ℕ → Op Db Error Authorization
unfolding row
get_authorization aid = row aid

-- `aid` is the fresh `uuid4().hex`, `now` what the clock says.
unfoldable pub request_authorization :
    Dispatcher
    → Principal
    → String
    → Option Value
    → Option String
    → Option ℕ
    → Bool
    → ℕ
    → ℕ
    → Op Db Error Authorization
unfolding resolve row insert_authorization write_tx get_authorization
request_authorization d p action_id params key retry_of warn now aid = do
  t ← resolve d bad_request action_id
  (λ db. (check_request d p t (or_empty params) key, db))
  version ← (λ db. (version_or_integrity (version_of d.store action_id), db))
  write_tx (
      insert_authorization
        (new_authorization d p action_id t version (or_empty params) key retry_of warn now aid))
  get_authorization aid
