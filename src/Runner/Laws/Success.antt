-- ===== src/Runner/Laws/Success.antt =====
-- What a `Fetch` with `ok=True` means.
use personal_world.Prelude.{
  ℕ, ◌<◌, String, Text, Bool, true, false, Option, none, some, ◌≡◌, inl, inr, refl, arith, sym, ap,
  subst, ◌∙◌, ◌&&◌, ◌||◌, leb, ltb, ◌==◌, nat_eq, string_eq, All, dict_get, get-put, Bool-cases,
  if◌then◌else◌,
}
use personal_world.Value.{Value}
use personal_world.Tx.{Result, ok, err}
use personal_world.Config.Models.{Request, Provider}
use personal_world.Mapping.Path.{PathError}
use personal_world.Runner.Fetch.{
  Raised, Fetch, Answer, response, refused, stranger, raised, Runner, Kept, Clock, failure,
}
use personal_world.Runner.Classify.{
  Body, parsed, unusable, overflow, parse_body, check_assertions, fetch_of, with_verdict, with_body,
  classify, read_answer, send_once,
}
use personal_world.Runner.Fetching.{Flight, fetch, remember, remember_ok, send_and_remember}
use personal_world.Runner.Laws.Endings.{MaySend, Ending, quiet, shared, cached, sent, fetch_ends}
use personal_world.Runner.Laws.Assertions.{Holds, check_assertions-none}
use personal_world.Dispatch.Rows.{RawResponse}

-- What was received, and that it is what was asked for.
pub record IsAccepted (r : Runner) (request_id : String) (request : Request) (resp : RawResponse)
    (now : ℕ) (f : Fetch) : Type 0 where
  pub no_error : resp.status_code < 400
  pub body : parse_body r.python resp.body ≡ parsed f.content
  pub asserted : All (Holds r resp.status_code f.content) request.assertions
  pub named : f.request_id ≡ request_id
  pub timed : f.fetched_at ≡ some now
  pub fetched : f.from_cache ≡ false

module _ (r : Runner) (request_id : String) (request : Request) (now : ℕ) where
  verdict_ok :
      (resp : RawResponse) (doc : Value) (x : Result PathError (Option Text)) (f : Fetch)
      → check_assertions r resp.status_code doc request.assertions ≡ x
      → resp.status_code < 400
      → parse_body r.python resp.body ≡ parsed doc
      → with_verdict r doc (fetch_of request_id request resp now) x ≡ ok f
      → f.ok ≡ true
      → IsAccepted r request_id request resp now f
  unfolding fetch_of
  verdict_ok resp doc (err e) f c s b h o = absurd (ground (arith, h))
  verdict_ok resp doc (ok (some failed)) f c s b h o = absurd (ground (arith, h, o))
  verdict_ok resp doc (ok none) f c s b h o =
      subst (IsAccepted r request_id request resp now) same (record {
        no_error = s;
        body = b;
        asserted = check_assertions-none r resp.status_code doc request.assertions c;
        named = refl;
        timed = refl;
        fetched = refl;
      })
    where
      same : record (fetch_of request_id request resp now) { ok = true; content = doc } ≡ f
      same = ground (arith, h)

  body_ok :
      (resp : RawResponse) (x : Body) (f : Fetch)
      → parse_body r.python resp.body ≡ x
      → resp.status_code < 400
      → with_body r request resp.status_code (fetch_of request_id request resp now) x ≡ ok f
      → f.ok ≡ true
      → IsAccepted r request_id request resp now f
  unfolding fetch_of
  body_ok resp (unusable why) f b s h o = absurd (ground (arith, h, o))
  body_ok resp overflow f b s h o = absurd (ground (arith, h, o))
  body_ok resp (parsed doc) f b s h o = verdict_ok resp doc _ f refl s b h o

  classify_ok :
      (resp : RawResponse) (f : Fetch)
      → classify r request_id request resp now ≡ ok f
      → f.ok ≡ true
      → IsAccepted r request_id request resp now f
  unfolding classify fetch_of
  classify_ok resp f h o =
      elim (Bool-cases ((resp.status_code == 401) || (resp.status_code == 403))) [
        | inl a ↦ absurd (ground (arith, h, o, a))
        | inr a ↦ elim (Bool-cases (leb 400 resp.status_code && ltb resp.status_code 500)) [
          | inl b ↦ absurd (ground (arith, h, o, a, b))
          | inr b ↦ elim (Bool-cases (leb 500 resp.status_code)) [
            | inl c ↦ absurd (ground (arith, h, o, a, b, c))
            | inr c ↦ body_ok resp _ f refl (ground (arith, b, c)) (sym (rw (a, b, c) refl) ∙ h) o
          ]
        ]
      ]

  pub read_answer_ok :
      (answer : Answer) (f : Fetch)
      → read_answer r request_id request now answer ≡ ok f
      → f.ok ≡ true
      → (resp : RawResponse) × (answer ≡ response resp) × IsAccepted r request_id request resp now f
  unfolding read_answer failure
  read_answer_ok (raised t) f h o = absurd (ground (arith, h, o))
  read_answer_ok (refused e) f h o = absurd (ground (arith, h, o))
  read_answer_ok (stranger t) f h o = absurd (ground (arith, h, o))
  read_answer_ok (response resp) f h o = (resp, refl, classify_ok resp f h o)

abbrev kept_good : String → Kept → Option (Value × Option ℕ)
kept_good request_id st = dict_get request_id st.last_good

remember_ok_cases :
    (request_id : String) (ttl : ℕ) (p : Result Raised Fetch × Kept) (f : Fetch)
    → (remember_ok request_id ttl p).0 ≡ ok f
    → f.ok ≡ true
    → (p.0 ≡ ok f)
      × (kept_good request_id (remember_ok request_id ttl p).1 ≡ some (f.content, f.fetched_at))
unfolding remember
remember_ok_cases request_id ttl (err e, st) f h o = absurd (ground (arith, h))
remember_ok_cases request_id ttl (ok g, st) f h o =
    subst
      (λ (x : Fetch).
        (◌≡◌ {A = Result Raised Fetch} (ok g) (ok x))
        × (kept_good request_id (remember_ok request_id ttl (ok g, st)).1
            ≡ some (x.content, x.fetched_at)))
      same (refl, good)
  where
    same : g ≡ f
    same = ground (arith, h)

    good :
        kept_good request_id (remember_ok request_id ttl (ok g, st)).1
        ≡ some (g.content, g.fetched_at)
    good = rw (ap (λ x. x.ok) same ∙ o) (
        get-put request_id request_id (g.content, g.fetched_at) st.last_good
        ∙ ap (λ b. if b then some (g.content, g.fetched_at) else kept_good request_id st)
            ((string_eq.beq_iff request_id request_id).1 refl))

abbrev Sent : Runner → Clock → String → Kept → Fetch → Kept → Type 0
Sent r clock request_id st f after =
    (provider : Provider) × ((request : Request) × ((resp : RawResponse) × (MaySend r request_id
            provider request
          × (r.send st.sends provider request ≡ response resp)
          × IsAccepted r request_id request resp clock.on_send f
          × (kept_good request_id after ≡ some (f.content, f.fetched_at)))))

Ending-ok :
    (r : Runner) (clock : Clock) (flight : Flight) (request_id : String) (st : Kept)
    {p : Result Raised Fetch × Kept} (f : Fetch)
    → Ending r clock flight request_id st p
    → p.0 ≡ ok f
    → f.ok ≡ true
    → f.from_cache ≡ false
    → Sent r clock request_id st f p.1
unfolding send_and_remember send_once
Ending-ok r clock flight request_id st f (quiet g o c) h k n = absurd (ground (arith, h, k, o))
Ending-ok r clock flight request_id st f (shared g w) h k n = absurd (ground (arith, h, n))
Ending-ok r clock flight request_id st f (cached provider request g may w fresh) h k n =
    absurd (ground (arith, h, n))
Ending-ok r clock flight request_id st f (sent provider request cache may w c) h k n =
    let (answered, good) =
      remember_ok_cases request_id request.ttl_s
        (send_once r request_id provider request clock.on_send (record st { cache = cache })) f h
        k in
    let (resp, is_resp, accepted) =
      read_answer_ok r request_id request clock.on_send _ f answered k in
    (provider, (request, (resp, (may, is_resp, accepted, good))))

-- A `Fetch` that is ok and not from the cache stands for a response to the request of its id, with a
-- status below 400, a body that parses to its data and every assertion of the request true of it; its
-- data is then the last good value of that id.
pub fetch_ok :
    (r : Runner) (clock : Clock) (flight : Flight) (force : Bool) (request_id : String) (st : Kept)
    (f : Fetch)
    → (fetch r clock flight force request_id st).0 ≡ ok f
    → f.ok ≡ true
    → f.from_cache ≡ false
    → (provider : Provider) × ((request : Request) × ((resp : RawResponse) × (MaySend r request_id
              provider request
            × (r.send st.sends provider request ≡ response resp)
            × IsAccepted r request_id request resp clock.on_send f
            × (dict_get request_id (fetch r clock flight force request_id st).1.last_good
                ≡ some (f.content, f.fetched_at)))))
fetch_ok r clock flight force request_id st f h k n =
    Ending-ok r clock flight request_id st f (fetch_ends r clock force request_id st flight) h k n
