-- ===== src/Runner/Fetching.antt =====
-- `fetch` of worlds/runner.py, with its cache and the last good values, once `_join` has answered: its
-- answer is an argument, and its wait is modelled in Runner.Flights. The file of `_remember` and what
-- it or the redaction could raise are not modelled.
use personal_world.Prelude.{
  ℕ, ◌+◌, String, Bool, true, Option, none, some, ◌++◌, leb, codes, string_eq, dict_get, dict_put,
  dict_del, if◌then◌else◌,
}
use personal_world.Tx.{Result, ok, err}
use personal_world.Config.Models.{Request, Provider, resolved_effect, is_write}
use personal_world.Runner.Fetch.{Raised, Fetch, Runner, Kept, Clock, failure}
use personal_world.Runner.Classify.{send_once}
use personal_world.Dispatch.Rows.{confinement_denied, connection}

-- What `_join` gives: the send is this call's, or another call ran it and left its result.
pub data Flight : Type 0 where
  owner : Flight
  waited : Option Fetch → Flight

abbrev pub has_lapsed : ℕ → ℕ → ℕ → Bool
has_lapsed ttl now at = leb (at + ttl) now

abbrev cached_entry : String → ℕ → ℕ → Kept → Fetch → Option ℕ → Option Fetch × Kept
cached_entry request_id ttl now st f none = (none, st)
cached_entry request_id ttl now st f (some at) =
    if has_lapsed ttl now at
    then (none, record st { cache = dict_del request_id st.cache })
    else (some f, st)

abbrev from_entry : String → ℕ → ℕ → Kept → Option Fetch → Option Fetch × Kept
from_entry request_id ttl now st none = (none, st)
from_entry request_id ttl now st (some f) = cached_entry request_id ttl now st f f.fetched_at

-- `_fresh_cache`
unfoldable pub fresh_cache : String → ℕ → ℕ → Kept → Option Fetch × Kept
unfolding dict_get dict_del
fresh_cache request_id ttl now st =
    if leb ttl 0
    then (none, st)
    else from_entry request_id ttl now st (dict_get request_id st.cache)

-- `_remember`, without the file
unfoldable pub remember : String → ℕ → Fetch → Kept → Kept
unfolding dict_put
remember request_id ttl f st = record st {
  last_good = dict_put request_id (f.content, f.fetched_at) st.last_good;
  cache = if leb ttl 0 then st.cache else dict_put request_id f st.cache;
}

abbrev pub remember_ok : String → ℕ → Result Raised Fetch × Kept → Result Raised Fetch × Kept
remember_ok request_id ttl (err e, st) = (err e, st)
remember_ok request_id ttl (ok f, st) = (ok f, if f.ok then remember request_id ttl f st else st)

-- `self._send_once` and `self._remember`
unfoldable pub send_and_remember :
    Runner → Clock → String → Provider → Request → Kept → Result Raised Fetch × Kept
unfolding send_once remember
send_and_remember r clock request_id provider request st =
    remember_ok request_id request.ttl_s (send_once r request_id provider request clock.on_send st)

abbrev pub or_send :
    Runner → Clock → String → Provider → Request → Option Fetch × Kept → Result Raised Fetch × Kept
or_send r clock request_id provider request (some f, st) = (ok (record f { from_cache = true }), st)
or_send r clock request_id provider request (none, st) =
    send_and_remember r clock request_id provider request st

-- `fetch`, once the request may be sent
unfoldable pub fetch_allowed :
    Runner → Clock → Flight → Bool → String → Provider → Request → Kept → Result Raised Fetch × Kept
unfolding failure fresh_cache send_and_remember
fetch_allowed r clock (waited (some f)) force request_id provider request st =
    (ok (record f { from_cache = true }), st)
fetch_allowed r clock (waited none) force request_id provider request st = (
  ok (
      failure r clock.on_failure request_id connection (codes "the shared fetch produced no result")
        (some request.method) (some request.path)),
  st,
)
fetch_allowed r clock owner force request_id provider request st =
    if force
    then send_and_remember r clock request_id provider request st
    else or_send r clock request_id provider request
        (fresh_cache request_id request.ttl_s clock.on_cache st)

abbrev with_provider :
    Runner
    → Clock
    → Flight
    → Bool
    → String
    → Request
    → Kept
    → Option Provider
    → Result Raised Fetch × Kept
with_provider r clock flight force request_id request st none = (
  ok (
      failure r clock.on_failure request_id confinement_denied
        (codes "unknown provider "
          ++ (r.python.repr request.provider ++ codes ": nothing was sent"))
        (some request.method) (some request.path)),
  st,
)
with_provider r clock flight force request_id request st (some provider) =
    if is_write (resolved_effect request)
    then (
      ok (
          failure r clock.on_failure request_id confinement_denied
            (codes "write effect: refused before send (a card fetch never performs a write)")
            (some request.method) (some request.path)),
      st,
    )
    else fetch_allowed r clock flight force request_id provider request st

abbrev with_request :
    Runner → Clock → Flight → Bool → String → Kept → Option Request → Result Raised Fetch × Kept
with_request r clock flight force request_id st none = (
  ok (
      failure r clock.on_failure request_id confinement_denied
        (codes "unknown request: nothing was sent") none none),
  st,
)
with_request r clock flight force request_id st (some request) =
    with_provider r clock flight force request_id request st (r.store.provider request.provider)

-- `fetch`
unfoldable pub fetch : Runner → Clock → Flight → Bool → String → Kept → Result Raised Fetch × Kept
unfolding failure fetch_allowed resolved_effect
fetch r clock flight force request_id st =
    with_request r clock flight force request_id st (r.store.request request_id)
