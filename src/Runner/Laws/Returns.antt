-- ===== src/Runner/Laws/Returns.antt =====
-- What `fetch` raises.
use personal_world.Prelude.{
  all, true, ℕ, String, Text, Bool, Option, none, some, List, [], ◌∷◌, ◌≡◌, ◌≢◌, ◌⊎◌, inl, inr,
  refl, arith, ◌==◌, ◌||◌, ◌&&◌, leb, ltb, nat_eq, All, codes, Bool-cases,
}
use personal_world.Value.{Value, null, bool, num, str, arr, obj}
use personal_world.Tx.{Result, ok, err}
use personal_world.Config.Models.{Provider, Request, Assertion}
use personal_world.Dispatch.Rows.{RawResponse}
use personal_world.Config.Checks.{valid_assertion, valid-reads}
use personal_world.Mapping.Path.{
  PathError, mapping_error, value_error, no_fuel, parse_path, Segment,
}
use personal_world.Mapping.Resolve.{resolve, then_resolve}
use personal_world.Mapping.Parsing.{parse_path_total}
use personal_world.Runner.Fetch.{
  Raised, recursion_error, Python, Loaded, loaded_as, not_json, nested_too_deeply, Fetch, Answer,
  response, refused, stranger, raised, Runner, Kept, Clock,
}
use personal_world.Runner.Classify.{
  by_type, loaded, decoded, Body, parsed, unusable, overflow, parse_body, check_assertion,
  check_assertions, check_path, check_resolved, or_next, wrong_status, with_verdict, with_body,
  fetch_of, classify, read_answer, send_once,
}
use personal_world.Runner.Fetching.{Flight, owner, fetch, remember_ok, send_and_remember}
use personal_world.Runner.Laws.Endings.{MaySend, Ending, quiet, shared, cached, sent, fetch_ends}

abbrev Returns : {E A : Type 0} → Result E A → Type 0
Returns {E} {A} x = (a : A) × (x ≡ ok a)

-- The path of the assertion, if it has one, parses or is a `MappingError`.
abbrev pub PathReads : Runner → Assertion → Type 0
PathReads r a =
    (path : String) → a.path ≡ some path → parse_path r.digits (codes path) ≢ err value_error

resolved-Returns :
    (r : Runner) (a : Assertion) (path : String) (doc : Value) (x : Result PathError (List Segment))
    → parse_path r.digits (codes path) ≡ x
    → parse_path r.digits (codes path) ≢ err value_error
    → Returns (check_resolved r a path (then_resolve doc x))
resolved-Returns r a path doc (ok steps) e n = (_, refl)
resolved-Returns r a path doc (err mapping_error) e n = (_, refl)
resolved-Returns r a path doc (err value_error) e n = absurd (n e)
resolved-Returns r a path doc (err no_fuel) e n = absurd (parse_path_total r.digits (codes path) e)

path-Returns :
    (r : Runner) (doc : Value) (a : Assertion) (p : Option String)
    → a.path ≡ p
    → PathReads r a
    → Returns (check_path r doc a p)
unfolding resolve
path-Returns r doc a none e n = (none, refl)
path-Returns r doc a (some path) e n =
    resolved-Returns r a path doc (parse_path r.digits (codes path)) refl (n path e)

assertion-Returns :
    (r : Runner) (status : ℕ) (doc : Value) (a : Assertion)
    → PathReads r a
    → Returns (check_assertion r status doc a)
unfolding check_assertion
assertion-Returns r status doc a n = elim (Bool-cases (wrong_status a.status status)) [
  | inl w ↦ rw w (_, refl)
  | inr w ↦ rw w (path-Returns r doc a a.path refl n)
]

or_next-Returns :
    (x y : Result PathError (Option Text)) → Returns x → Returns y → Returns (or_next x y)
or_next-Returns (err e) y (a, h) k = absurd (ground (arith, h))
or_next-Returns (ok none) y h k = k
or_next-Returns (ok (some t)) y h k = (some t, refl)

assertions_return :
    (r : Runner) (status : ℕ) (doc : Value) (said : List Assertion)
    → All (PathReads r) said
    → Returns (check_assertions r status doc said)
unfolding check_assertions
assertions_return r status doc [] n = (none, refl)
assertions_return r status doc (a ∷ rest) (n, m) =
    or_next-Returns (check_assertion r status doc a) (check_assertions r status doc rest)
      (assertion-Returns r status doc a n) (assertions_return r status doc rest m)

verdict-Returns :
    (r : Runner) (doc : Value) (g : Fetch) (x : Result PathError (Option Text))
    → Returns x
    → Returns (with_verdict r doc g x)
verdict-Returns r doc g (err e) (a, h) = absurd (ground (arith, h))
verdict-Returns r doc g (ok none) h = (_, refl)
verdict-Returns r doc g (ok (some t)) h = (_, refl)

-- A value, or else the RecursionError, for a reason
abbrev Ends : {A : Type 0} → Type 0 → Result Raised A → Type 0
Ends {A} E x = Returns x ⊎ ((x ≡ err recursion_error) × E)

body-Ends :
    (r : Runner) (request : Request) (status : ℕ) (g : Fetch) (x : Body)
    → All (PathReads r) request.assertions
    → Ends (x ≡ overflow) (with_body r request status g x)
body-Ends r request status g (unusable t) n = inl (_, refl)
body-Ends r request status g overflow n = inr (refl, refl)
body-Ends r request status g (parsed doc) n =
    inl (verdict-Returns r doc g _ (assertions_return r status doc request.assertions n))

-- The answer is a response whose body is a text that is nested too deeply for `json.loads`.
abbrev pub TooDeep : Runner → Answer → Type 0
TooDeep r answer =
    (resp : RawResponse) × (answer ≡ response resp)
    × ((t : Text) × (r.python.decode resp.body ≡ some t) × (r.python.loads t ≡ nested_too_deeply))

value-parses : (v : Value) → by_type v ≢ overflow
value-parses null e = ground (arith, e)
value-parses (bool b) e = ground (arith, e)
value-parses (num n) e = ground (arith, e)
value-parses (str s) e = ground (arith, e)
value-parses (arr vs) e = ground (arith, e)
value-parses (obj fs) e = ground (arith, e)

overflow_deep :
    (p : Python) (body : List ℕ)
    → parse_body p body ≡ overflow
    → (t : Text) × (p.decode body ≡ some t) × (p.loads t ≡ nested_too_deeply)
unfolding parse_body
overflow_deep p body = of_text (p.decode body) refl
  where
    of_loaded :
        (t : Text) (l : Loaded)
        → p.loads t ≡ l
        → loaded l ≡ overflow
        → p.loads t ≡ nested_too_deeply
    of_loaded t not_json e h = absurd (ground (arith, h))
    of_loaded t nested_too_deeply e h = e
    of_loaded t (loaded_as v) e h = absurd (value-parses v h)

    of_text :
        (o : Option Text)
        → p.decode body ≡ o
        → decoded p o ≡ overflow
        → (t : Text) × (p.decode body ≡ some t) × (p.loads t ≡ nested_too_deeply)
    of_text none e h = absurd (ground (arith, h))
    of_text (some t) e h = (t, e, of_loaded t (p.loads t) refl h)

Ends-map : {A E F : Type 0} (x : Result Raised A) → (E → F) → Ends E x → Ends F x
Ends-map x f (inl a) = inl a
Ends-map x f (inr (e, why)) = inr (e, f why)

answer-Ends :
    (r : Runner) (request_id : String) (request : Request) (now : ℕ) (answer : Answer)
    → All (PathReads r) request.assertions
    → Ends (TooDeep r answer) (read_answer r request_id request now answer)
unfolding read_answer classify
answer-Ends r request_id request now (raised t) n = inl (_, refl)
answer-Ends r request_id request now (refused e) n = inl (_, refl)
answer-Ends r request_id request now (stranger t) n = inl (_, refl)
answer-Ends r request_id request now (response resp) n =
    elim (Bool-cases ((resp.status_code == 401) || (resp.status_code == 403))) [
      | inl a ↦ rw a (inl (_, refl))
      | inr a ↦ elim (Bool-cases (leb 400 resp.status_code && ltb resp.status_code 500)) [
        | inl b ↦ rw (a, b) (inl (_, refl))
        | inr b ↦ elim (Bool-cases (leb 500 resp.status_code)) [
          | inl c ↦ rw (a, b, c) (inl (_, refl))
          | inr c ↦
              rw (a, b, c)
                (Ends-map _ (λ e. (resp, refl, overflow_deep r.python resp.body e))
                  (body-Ends r request resp.status_code (fetch_of request_id request resp now)
                    (parse_body r.python resp.body) n))
        ]
      ]
    ]

remembered-Ends :
    (E : Type 0) (request_id : String) (ttl : ℕ) (p : Result Raised Fetch × Kept)
    → Ends E p.0
    → Ends E (remember_ok request_id ttl p).0
remembered-Ends E request_id ttl (err e, st) h = h
remembered-Ends E request_id ttl (ok f, st) h = inl (f, refl)

-- The request of this id may be sent, this call sends it, and it is answered by a body that is
-- nested too deeply.
abbrev pub AnsweredTooDeep : Runner → Flight → String → Kept → Type 0
AnsweredTooDeep r flight request_id st =
    (provider : Provider) × (request : Request) × MaySend r request_id provider request
    × (flight ≡ owner)
    × TooDeep r (r.send st.sends provider request)

Ending-Ends :
    (r : Runner) (clock : Clock) (flight : Flight) (request_id : String) (st : Kept)
    {p : Result Raised Fetch × Kept}
    → ((request : Request)
        → r.store.request request_id ≡ some request
        → All (PathReads r) request.assertions)
    → Ending r clock flight request_id st p
    → Ends (AnsweredTooDeep r flight request_id st) p.0
unfolding send_and_remember send_once
Ending-Ends r clock flight request_id st n (quiet f o c) = inl (f, refl)
Ending-Ends r clock flight request_id st n (shared f w) = inl (_, refl)
Ending-Ends r clock flight request_id st n (cached provider request f may w fresh) = inl (_, refl)
Ending-Ends r clock flight request_id st n (sent provider request cache may w c) =
    remembered-Ends (AnsweredTooDeep r flight request_id st) request_id request.ttl_s
      (send_once r request_id provider request clock.on_send (record st { cache = cache }))
      (Ends-map _ (λ deep. (provider, request, may, w, deep))
        (answer-Ends r request_id request clock.on_send (r.send st.sends provider request)
          (n request may.known)))

valid_PathReads :
    (r : Runner) (said : List Assertion)
    → all (valid_assertion r.digits) said ≡ true
    → All (PathReads r) said
unfolding all
valid_PathReads r [] h = tt
valid_PathReads r (a ∷ rest) h =
    (valid-reads r.digits a (ground (arith, h)), valid_PathReads r rest (ground (arith, h)))

-- If the assertions of the request passed their validator when it was loaded, then `fetch`, once
-- `_join` has answered, returns a `Fetch`, or else it raises RecursionError, and it does so only
-- where, as the owner of the flight, it sent the request of that id and the body of the response
-- is nested too deeply for `json.loads`.
pub fetch_returns :
    (r : Runner) (clock : Clock) (flight : Flight) (force : Bool) (request_id : String) (st : Kept)
    → ((request : Request)
        → r.store.request request_id ≡ some request
        → all (valid_assertion r.digits) request.assertions ≡ true)
    → ((f : Fetch) × ((fetch r clock flight force request_id st).0 ≡ ok f))
      ⊎ (((fetch r clock flight force request_id st).0 ≡ err recursion_error)
          × AnsweredTooDeep r flight request_id st)
fetch_returns r clock flight force request_id st valid =
    Ending-Ends r clock flight request_id st
      (λ request e. valid_PathReads r request.assertions (valid request e))
      (fetch_ends r clock force request_id st flight)
