-- ===== src/Runner/Laws/Caching.antt =====
-- What the cache of a `Runner` holds, and what it answers with.
use personal_world.Prelude.{
  ℕ, ◌+◌, ◌<◌, String, Text, ◌==◌, ◌||◌, ◌&&◌, ltb, nat_eq, Bool, true, false, Option, none, some,
  List, [], ◌≡◌, ◌⊎◌, inl, inr, refl, arith, sym, subst, ◌∙◌, leb, string_eq, dict_get, dict_put,
  dict_del, get-put, get-del, Bool-cases, if◌then◌else◌,
}
use personal_world.Value.{Value}
use personal_world.Tx.{Result, ok, err}
use personal_world.Config.Models.{Request}
use personal_world.Mapping.Path.{PathError}
use personal_world.Runner.Fetch.{
  Raised, Fetch, Answer, response, refused, stranger, raised, Runner, Kept, Clock, failure,
}
use personal_world.Runner.Classify.{
  Body, parsed, unusable, overflow, parse_body, with_body, with_verdict, check_assertions, fetch_of,
  classify, read_answer, send_once,
}
use personal_world.Runner.Fetching.{Flight, owner, fetch, remember, remember_ok, send_and_remember}
use personal_world.Runner.Laws.Endings.{Ending, quiet, shared, cached, sent, fetch_ends}
use personal_world.Runner.Laws.Success.{read_answer_ok}

-- A cached value is a success of its own request that was fetched.
pub record IsGood (request_id : String) (f : Fetch) : Type 0 where
  pub succeeded : f.ok ≡ true
  pub named : f.request_id ≡ request_id
  pub fetched : f.from_cache ≡ false

IsKept : List (String × Fetch) → Type 0
IsKept cache =
    (request_id : String) (f : Fetch) → dict_get request_id cache ≡ some f → IsGood request_id f

-- The states that calls of `fetch` lead to, each under a configuration and a clock of its own.
pub data Reach : Kept → Type 0 where
  start : Reach (record { cache = []; last_good = []; sends = [] })
  after :
      {st : Kept} (r : Runner) (clock : Clock) (flight : Flight) (force : Bool)
      (request_id : String)
      → Reach st
      → Reach (fetch r clock flight force request_id st).1

put-IsKept :
    (request_id : String) (g : Fetch) (cache : List (String × Fetch))
    → IsGood request_id g
    → IsKept cache
    → IsKept (dict_put request_id g cache)
unfolding IsKept
put-IsKept request_id g cache good k name f e = elim (Bool-cases (request_id == name)) [
  | inl s ↦
      subst (λ n. IsGood n f) ((string_eq.beq_iff request_id name).0 s)
        (subst (IsGood request_id) (is_put s) good)
  | inr s ↦ k name f (ground (arith, get-put request_id name g cache, e, s))
]
  where
    is_put : (request_id == name) ≡ true → g ≡ f
    is_put s = ground (arith, get-put request_id name g cache, e, s)

kept_part :
    (request_id : String) (st : Kept) (cache : List (String × Fetch))
    → (cache ≡ st.cache) ⊎ (cache ≡ dict_del request_id st.cache)
    → IsKept st.cache
    → IsKept cache
unfolding IsKept
kept_part request_id st cache (inl e) k = subst IsKept (sym e) k
kept_part request_id st cache (inr e) k =
    subst IsKept (sym e)
      (λ name f g. k name f (ground (arith, get-del request_id name st.cache, g)))

remember-IsKept :
    (request_id : String) (ttl : ℕ) (p : Result Raised Fetch × Kept)
    → ((f : Fetch) → p.0 ≡ ok f → f.ok ≡ true → IsGood request_id f)
    → IsKept p.1.cache
    → IsKept (remember_ok request_id ttl p).1.cache
unfolding remember
remember-IsKept request_id ttl (err e, st) good k = k
remember-IsKept request_id ttl (ok f, st) good k = by_ok f.ok refl
  where
    by_ttl :
        (z : Bool)
        → IsGood request_id f
        → IsKept (if z then st.cache else dict_put request_id f st.cache)
    by_ttl true g = k
    by_ttl false g = put-IsKept request_id f st.cache g k

    by_ok : (b : Bool) → f.ok ≡ b → IsKept (if b then remember request_id ttl f st else st).cache
    by_ok true o = by_ttl (leb ttl 0) (good f refl o)
    by_ok false o = k

Ending-IsKept :
    (r : Runner) (clock : Clock) (flight : Flight) (request_id : String) (st : Kept)
    {p : Result Raised Fetch × Kept}
    → Ending r clock flight request_id st p
    → IsKept st.cache
    → IsKept p.1.cache
unfolding send_and_remember send_once
Ending-IsKept r clock flight request_id st (quiet f o c) k = k
Ending-IsKept r clock flight request_id st (shared f w) k = k
Ending-IsKept r clock flight request_id st (cached provider request f may w fresh) k = k
Ending-IsKept r clock flight request_id st (sent provider request cache may w c) k =
    remember-IsKept request_id request.ttl_s
      (send_once r request_id provider request clock.on_send (record st { cache = cache }))
      (λ f h o.
        let (resp, is_resp, accepted) =
          read_answer_ok r request_id request clock.on_send (r.send st.sends provider request) f h
            o in
        record { succeeded = o; named = accepted.named; fetched = accepted.fetched })
      (kept_part request_id st cache c k)

reach-IsKept : {st : Kept} → Reach st → IsKept st.cache
unfolding IsKept dict_get
reach-IsKept start = λ name f e. absurd (ground (arith, e))
reach-IsKept (after {st} r clock flight force request_id before) =
    Ending-IsKept r clock flight request_id st (fetch_ends r clock force request_id st flight)
      (reach-IsKept before)

module _ (r : Runner) (request_id : String) (request : Request) (now : ℕ) where
  verdict_fetched :
      (f g : Fetch) (doc : Value) (x : Result PathError (Option Text))
      → g.from_cache ≡ false
      → with_verdict r doc g x ≡ ok f
      → f.from_cache ≡ false
  verdict_fetched f g doc (err e) n h = absurd (ground (arith, h))
  verdict_fetched f g doc (ok none) n h = ground (arith, h, n)
  verdict_fetched f g doc (ok (some t)) n h = ground (arith, h, n)

  body_fetched :
      (f g : Fetch) (status : ℕ) (x : Body)
      → g.from_cache ≡ false
      → with_body r request status g x ≡ ok f
      → f.from_cache ≡ false
  body_fetched f g status (unusable t) n h = ground (arith, h, n)
  body_fetched f g status overflow n h = absurd (ground (arith, h))
  body_fetched f g status (parsed doc) n h =
      verdict_fetched f g doc (check_assertions r status doc request.assertions) n h

  -- What was sent is not said to come from the cache.
  answer_fetched :
      (answer : Answer) (f : Fetch)
      → read_answer r request_id request now answer ≡ ok f
      → f.from_cache ≡ false
  unfolding read_answer failure classify fetch_of
  answer_fetched (raised t) f h = ground (arith, h)
  answer_fetched (refused e) f h = ground (arith, h)
  answer_fetched (stranger t) f h = ground (arith, h)
  answer_fetched (response resp) f h =
      elim (Bool-cases ((resp.status_code == 401) || (resp.status_code == 403))) [
        | inl a ↦ ground (arith, h, a)
        | inr a ↦ elim (Bool-cases (leb 400 resp.status_code && ltb resp.status_code 500)) [
          | inl b ↦ ground (arith, h, a, b)
          | inr b ↦ elim (Bool-cases (leb 500 resp.status_code)) [
            | inl c ↦ ground (arith, h, a, b, c)
            | inr c ↦
                body_fetched f (fetch_of request_id request resp now) resp.status_code
                  (parse_body r.python resp.body) refl (sym (rw (a, b, c) refl) ∙ h)
          ]
        ]
      ]

remembered_same :
    (request_id : String) (ttl : ℕ) (p : Result Raised Fetch × Kept)
    → (remember_ok request_id ttl p).0 ≡ p.0
remembered_same request_id ttl (err e, st) = refl
remembered_same request_id ttl (ok f, st) = refl

abbrev IsYoung : Runner → Clock → String → Kept → Fetch → Kept → Type 0
IsYoung r clock request_id st f later =
    (f.ok ≡ true)
    × (f.request_id ≡ request_id)
    × (later ≡ st)
    × ((request : Request) × ((at : ℕ) × ((r.store.request request_id ≡ some request)
            × (f.fetched_at ≡ some at)
            × (clock.on_cache < at + request.ttl_s))))

Ending-IsYoung :
    (r : Runner) (clock : Clock) (request_id : String) (st : Kept) {p : Result Raised Fetch × Kept}
    (f : Fetch)
    → Ending r clock owner request_id st p
    → IsKept st.cache
    → p.0 ≡ ok f
    → f.from_cache ≡ true
    → IsYoung r clock request_id st f p.1
unfolding IsKept send_and_remember send_once
Ending-IsYoung r clock request_id st f (quiet g o c) k h n = absurd (ground (arith, h, n, c))
Ending-IsYoung r clock request_id st f (shared g w) k h n = absurd (ground (arith, w))
Ending-IsYoung r clock request_id st f (cached provider request g may w fresh) k h n =
    let good = k request_id g fresh.entry in
    let same : record g { from_cache = true } ≡ f = ground (arith, h) in
    subst (λ x. IsYoung r clock request_id st x st) same
      (
        good.succeeded,
        good.named,
        refl,
        (request, (fresh.at, (may.known, fresh.fetched, fresh.young))),
      )
Ending-IsYoung r clock request_id st f (sent provider request cache may w c) k h n =
    let fetched : f.from_cache ≡ false =
      answer_fetched r request_id request clock.on_send (r.send st.sends provider request) f (
        sym (
          remembered_same request_id request.ttl_s
            (send_once r request_id provider request clock.on_send (record st { cache = cache })))
        ∙ h) in
    absurd (ground (arith, n, fetched))

-- However many fetches came before, under whatever configurations, an owner's answer from the
-- cache is a success of the request of that id, fetched less than its time to live before;
-- nothing is sent for it.
pub cached_is_young :
    {st : Kept} (r : Runner) (clock : Clock) (force : Bool) (request_id : String) (f : Fetch)
    → Reach st
    → (fetch r clock owner force request_id st).0 ≡ ok f
    → f.from_cache ≡ true
    → (f.ok ≡ true)
      × (f.request_id ≡ request_id)
      × ((fetch r clock owner force request_id st).1 ≡ st)
      × ((request : Request) × ((at : ℕ) × ((r.store.request request_id ≡ some request)
              × (f.fetched_at ≡ some at)
              × (clock.on_cache < at + request.ttl_s))))
cached_is_young {st} r clock force request_id f reach h n =
    Ending-IsYoung r clock request_id st f (fetch_ends r clock force request_id st owner)
      (reach-IsKept reach) h n
