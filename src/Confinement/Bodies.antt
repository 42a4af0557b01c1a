-- ===== src/Confinement/Bodies.antt =====
-- How an operation of worlds/confinement.py ends, and the size of the bodies that it returns.
use personal_world.Prelude.{
  ℕ, ◌+◌, ◌≤◌, String, Text, Bool, true, false, List, [], ◌∷◌, ◌++◌, ◌≡◌, refl, ap, sym, subst, ◌∙◌,
  arith, length, length-append, ltb, leb, Bool-cases, inl, inr, ◌&&◌, nat_beq,
}
use personal_world.Tx.{ok_inj, when_done, Result, ok, err, lift}
use personal_world.Config.Models.{Provider, Request, Effect, reads, writes}
use personal_world.Dispatch.Rows.{RawResponse, ConfinementError, response}
use personal_world.Confinement.Base.{Env, Stop, stopped, crashed}
use personal_world.Confinement.Guards.{Ready, prepare}
use personal_world.Confinement.Credentials.{auth_headers}
use personal_world.Confinement.Exchanges.{
  Exchange, Ended, complete, broken, Stream, Outcome, fault, answered, Net, Wire, at_write,
  at_exchange, read_chunks, read_body, with_body, perform, write, exchange, exchange_of, typed,
  content_of, update_headers, request,
}
use personal_world.Confinement.Sessions.{session_forget, session_key}
use personal_world.Confinement.Sending.{
  credential_header, refusal, log_in, take_session, send_with, or_refused, replay, unless_refused,
  session_send, plain_send, send_ready, send, reply_of, confined_request,
}
use personal_world.Confinement.Login.{is_cookie, holds_session}

read_chunks_short :
    (env : Env) (limit status : ℕ) (ended : Ended) (size : ℕ) (body : List ℕ)
    (chunks : List (List ℕ × Bool)) (out : List ℕ)
    → size ≡ length body
    → size ≤ limit
    → read_chunks env limit status ended size body chunks ≡ ok out
    → length out ≤ limit
unfolding read_chunks
read_chunks_short env limit status (complete true) size body [] out e h k =
    absurd (ground (arith, k))
read_chunks_short env limit status (complete false) size body [] out e h k =
    ground (arith, ap length (ok_inj k), e, h)
read_chunks_short env limit status (broken f) size body [] out e h k = absurd (ground (arith, k))
read_chunks_short env limit status ended size body ((chunk, late) ∷ chunks) out e h k = ground (
  arith,
  k,
  e,
  h,
  length-append body chunk,
  read_chunks_short env limit status ended (size + length chunk) (body ++ chunk) chunks out,
)

read_body_short :
    (env : Env) (limit : ℕ) (x : Stream) (out : List ℕ)
    → read_body env limit x ≡ ok out
    → length out ≤ limit
unfolding read_body
read_body_short env limit x out h =
    ground (arith, h, read_chunks_short env limit x.status x.ended 0 [] x.chunks out refl)

perform_short :
    (env : Env) (limit : ℕ) (o : Outcome) (r : RawResponse)
    → perform env limit o ≡ ok r
    → length r.body ≤ limit
unfolding perform
perform_short env limit (fault f) r h = absurd (ground (arith, h))
perform_short env limit (answered x) r h =
    elim (Bool-cases (leb 300 x.status && ltb x.status 400)) [
      | inl away ↦ absurd (ground (arith, h, away))
      | inr here ↦ of_body (read_body env limit x) refl (sym (perform_here here) ∙ h)
    ]
  where
    perform_here :
        (leb 300 x.status && ltb x.status 400) ≡ false
        → perform env limit (answered x) ≡ with_body env x (read_body env limit x)
    perform_here e = rw e refl

    of_body :
        (o : Result ConfinementError (List ℕ))
        → read_body env limit x ≡ o
        → with_body env x o ≡ ok r
        → length r.body ≤ limit
    of_body (err e) p k = absurd (ground (arith, k))
    of_body (ok out) p k =
        let q = ap (λ (z : RawResponse). length z.body) (ok_inj k) in
        omega (arith, q, read_body_short env limit x out p)

write_short :
    (env : Env) (net : Net) (x : Exchange) (s : Wire) (r : RawResponse)
    → (write env net x s).0 ≡ ok r
    → length r.body ≤ x.limit
unfolding write
write_short env net x s r h = elim (Bool-cases (net.late at_write s.written)) [
  | inl e ↦ absurd (ground (arith, h, e))
  | inr e ↦ perform_short env x.limit (net.http s.written x) r (ground (arith, h, e))
]

module _ (env : Env) (net : Net) (provider : Provider) (r : Request) (ready : Ready) where
  exchange_short :
      (credential : List (String × Text)) (s : Wire) (a : RawResponse)
      → (exchange env net ready provider r credential s).0 ≡ ok a
      → length a.body ≤ provider.max_bytes
  unfolding exchange exchange_of
  exchange_short credential s a h = elim (Bool-cases (net.late at_exchange s.written)) [
    | inl e ↦ absurd (ground (arith, h, e))
    | inr e ↦
        write_short env net
          (exchange_of env request ready provider r.method ready.target
            (typed (content_of env r.method r.body) (update_headers ready.headers credential))
            (content_of env r.method r.body))
          s a (ground (arith, h, e))
  ]

  or_refused_same : (a b : RawResponse) → or_refused env provider a ≡ ok b → a ≡ b
  or_refused_same a b h = ground (arith, h)

  same_short :
      (a b : RawResponse)
      → length a.body ≤ provider.max_bytes
      → a ≡ b
      → length b.body ≤ provider.max_bytes
  same_short a b p e = subst (λ (z : RawResponse). length z.body ≤ provider.max_bytes) e p

  replay_short :
      (s : Wire) (a : RawResponse)
      → (replay env net provider r ready s).0 ≡ ok a
      → length a.body ≤ provider.max_bytes
  unfolding replay send_with
  replay_short s b h = when_done (log_in env net provider ready) _ s h (λ credential _ k.
      when_done (send_with env net provider r ready credential) _ _ k (λ a e l.
        same_short a b
          (exchange_short (credential_header (is_cookie provider.auth.type) credential) _ a e)
          (or_refused_same a b l)))

  unless_refused_short :
      (effect : Effect) (answer : RawResponse) (s : Wire) (a : RawResponse)
      → length answer.body ≤ provider.max_bytes
      → (unless_refused env net provider r ready effect answer s).0 ≡ ok a
      → length a.body ≤ provider.max_bytes
  unless_refused_short reads answer s a p h =
      elim (Bool-cases (nat_beq answer.status_code (refusal provider.auth.type))) [
        | inl e ↦
            replay_short (record s { held = session_forget (session_key provider) s.held }) a
              (ground (arith, h, e))
        | inr e ↦ same_short answer a p (ground (arith, h, e))
      ]
  unless_refused_short writes answer s a p h = same_short answer a p (ground (arith, h))

  session_send_short :
      (effect : Effect) (s : Wire) (a : RawResponse)
      → (session_send env net provider r ready effect s).0 ≡ ok a
      → length a.body ≤ provider.max_bytes
  unfolding session_send send_with
  session_send_short effect s b h =
      when_done (take_session env net provider ready) _ s h (λ credential _ k.
        when_done (send_with env net provider r ready credential)
          (unless_refused env net provider r ready effect) _ k
          (λ a e l.
            unless_refused_short effect a _ b
              (exchange_short (credential_header (is_cookie provider.auth.type) credential) _ a e)
              l))

  plain_send_short :
      (s : Wire) (a : RawResponse)
      → (plain_send env net provider r ready s).0 ≡ ok a
      → length a.body ≤ provider.max_bytes
  unfolding plain_send
  plain_send_short s a h =
      when_done (lift (auth_headers env provider.auth)) _ s h
        (λ credential _ k. exchange_short credential s a k)

  send_ready_short :
      (effect : Effect) (s : Wire) (a : RawResponse)
      → (send_ready env net provider r effect ready s).0 ≡ ok a
      → length a.body ≤ provider.max_bytes
  send_ready_short effect s a h = elim (Bool-cases (holds_session provider.auth.type)) [
    | inl e ↦ session_send_short effect s a (ground (arith, h, e))
    | inr e ↦ plain_send_short s a (ground (arith, h, e))
  ]

reply_of-eq-response :
    (env : Env) (o : Result Stop RawResponse) (a : RawResponse)
    → reply_of env o ≡ response a
    → o ≡ ok a
reply_of-eq-response env (ok b) a h = ground (arith, h)
reply_of-eq-response env (err (stopped e)) a h = absurd (ground (arith, h))
reply_of-eq-response env (err (crashed n)) a h = absurd (ground (arith, h))

-- A response that a call returns is no longer than the provider allows, whatever was declared and
-- however the body arrived.
pub body_within_limit :
    (env : Env) (net : Net) (provider : Provider) (r : Request) (effect : Effect) (s : Wire)
    (a : RawResponse)
    → (confined_request env net provider r effect s).0 ≡ response a
    → length a.body ≤ provider.max_bytes
unfolding confined_request send
body_within_limit env net provider r effect s a h =
    when_done (lift (prepare env provider r effect)) (send_ready env net provider r effect) s
      (reply_of-eq-response env _ a h)
      (λ ready _ k. send_ready_short env net provider r ready effect s a k)
