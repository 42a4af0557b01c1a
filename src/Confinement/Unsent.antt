-- ===== src/Confinement/Unsent.antt =====
-- A refusal that the dispatcher records as FAILED: nothing of the action was sent.
use personal_world.Prelude.{
  ℕ, ◌+◌, length, Text, String, Bool, true, false, List, [], ◌∷◌, ◌++◌, ◌||◌, ◌≡◌, refl, ap, ◌∙◌,
  arith,
}
use personal_world.Tx.{Result, ok, err, Op, ◌>>=◌, lift, resume}
use personal_world.Config.Models.{Provider, Request, writes}
use personal_world.Dispatch.Rows.{
  failed, RawResponse, ConfinementError, Reply, response, refused, other,
}
use personal_world.Dispatch.Outcome.{classify_outcome, refused_locally}
use personal_world.Confinement.Base.{Env, Stop, stopped, crashed}
use personal_world.Confinement.Guards.{Ready, prepare}
use personal_world.Confinement.Credentials.{auth_headers}
use personal_world.Confinement.Exchanges.{
  slow, lost, Ended, complete, broken, Stream, Outcome, fault, answered, Net, Wire, Exchange,
  request, read_chunks, read_body, with_body, perform, write, exchange, exchange_of, typed,
  content_of, update_headers,
}
use personal_world.Confinement.Sending.{
  credential_header, take_session, send_with, unless_refused, session_send, plain_send, send_ready,
  send, reply_of, confined_request,
}
use personal_world.Confinement.Login.{is_cookie, holds_session}
use personal_world.Confinement.Written.{requests}
use personal_world.Confinement.Sent.{requests-take_session}

-- An error that says that the action did not run
abbrev says_unsent : ConfinementError → Bool
says_unsent e = e.pre_send || refused_locally e.error_class

abbrev stop_unsent : Stop → Bool
stop_unsent (stopped e) = says_unsent e
stop_unsent (crashed n) = false

abbrev is_unsent : {A : Type 0} → Result Stop A → Bool
is_unsent (ok a) = false
is_unsent (err e) = stop_unsent e

abbrev body_unsent : Result ConfinementError (List ℕ) → Bool
body_unsent (ok body) = false
body_unsent (err e) = says_unsent e

read_chunks-sent :
    (env : Env) (limit status : ℕ) (ended : Ended) (size : ℕ) (body : List ℕ)
    (chunks : List (List ℕ × Bool))
    → body_unsent (read_chunks env limit status ended size body chunks) ≡ false
unfolding read_chunks
read_chunks-sent env limit status (complete true) size body [] = refl
read_chunks-sent env limit status (complete false) size body [] = refl
read_chunks-sent env limit status (broken (slow true)) size body [] = refl
read_chunks-sent env limit status (broken (slow false)) size body [] = refl
read_chunks-sent env limit status (broken (lost true n)) size body [] = refl
read_chunks-sent env limit status (broken (lost false n)) size body [] = refl
read_chunks-sent env limit status ended size body ((chunk, late) ∷ chunks) =
    ground
      (arith, read_chunks-sent env limit status ended (size + length chunk) (body ++ chunk) chunks)

read_body-sent : (env : Env) (limit : ℕ) (x : Stream) → body_unsent (read_body env limit x) ≡ false
unfolding read_body
read_body-sent env limit x =
    ground (arith, read_chunks-sent env limit x.status x.ended 0 [] x.chunks)

with_body-sent :
    (env : Env) (x : Stream) (o : Result ConfinementError (List ℕ))
    → body_unsent o ≡ false
    → is_unsent (with_body env x o) ≡ false
with_body-sent env x (ok b) h = refl
with_body-sent env x (err e) h = h

perform-sent : (env : Env) (limit : ℕ) (o : Outcome) → is_unsent (perform env limit o) ≡ false
unfolding perform
perform-sent env limit (fault (slow b)) = refl
perform-sent env limit (fault (lost true n)) = refl
perform-sent env limit (fault (lost false n)) = refl
perform-sent env limit (answered x) =
    ground (arith, with_body-sent env x (read_body env limit x) (read_body-sent env limit x))

write-sent :
    (env : Env) (net : Net) (x : Exchange) (s : Wire) → is_unsent (write env net x s).0 ≡ false
unfolding write
write-sent env net x s = ground (arith, perform-sent env x.limit (net.http s.written x))

exchange-sent :
    (env : Env) (net : Net) (ready : Ready) (provider : Provider) (r : Request)
    (credential : List (String × Text)) (s : Wire)
    → is_unsent (exchange env net ready provider r credential s).0 ≡ false
unfolding exchange
exchange-sent env net ready provider r credential s = ground (
  arith,
  write-sent env net
      (exchange_of env request ready provider r.method ready.target
        (typed (content_of env r.method r.body) (update_headers ready.headers credential))
        (content_of env r.method r.body))
      s,
)

module _ {A B : Type 0} where
  -- If no later step fails that way, the failure is that of the first step.
  unsent_first :
      (m : Op Wire Stop A) (f : A → Op Wire Stop B) (s : Wire)
      → ((a : A) (t : Wire) → is_unsent (f a t).0 ≡ false)
      → is_unsent ((m >>= f) s).0 ≡ true
      → ((m >>= f) s).1 ≡ (m s).1
  unsent_first m f s g = after (m s).0
    where
      after :
          (o : Result Stop A)
          → is_unsent (resume o f (m s).1).0 ≡ true
          → (resume o f (m s).1).1 ≡ (m s).1
      after (ok a) h = absurd (ground (arith, h, g a (m s).1))
      after (err e) h = refl

  sent_then :
      (m : Op Wire Stop A) (f : A → Op Wire Stop B) (s : Wire)
      → is_unsent (m s).0 ≡ false
      → ((a : A) (t : Wire) → is_unsent (f a t).0 ≡ false)
      → is_unsent ((m >>= f) s).0 ≡ false
  sent_then m f s h g = after (m s).0 h
    where
      after : (o : Result Stop A) → is_unsent o ≡ false → is_unsent (resume o f (m s).1).0 ≡ false
      after (ok a) k = g a (m s).1
      after (err e) k = k

module _ (env : Env) (net : Net) (provider : Provider) (r : Request) (ready : Ready) where
  -- A write is not sent again: once its request is written, no error says that it was not.
  write_answered-sent :
      (answer : RawResponse) (s : Wire)
      → is_unsent (unless_refused env net provider r ready writes answer s).0 ≡ false
  write_answered-sent answer s = ground arith

  after_session-sent :
      (credential : Text) (s : Wire)
      → is_unsent
          ((send_with env net provider r ready credential
              >>= unless_refused env net provider r ready writes)
            s).0
        ≡ false
  unfolding send_with
  after_session-sent credential s =
      sent_then (send_with env net provider r ready credential)
        (unless_refused env net provider r ready writes) s
        (exchange-sent env net ready provider r
          (credential_header (is_cookie provider.auth.type) credential) s)
        write_answered-sent

  session_send-unsent :
      (s : Wire)
      → is_unsent (session_send env net provider r ready writes s).0 ≡ true
      → requests (session_send env net provider r ready writes s).1.written ≡ requests s.written
  unfolding session_send
  session_send-unsent s h =
      ap (λ (w : Wire). requests w.written)
        (unsent_first (take_session env net provider ready)
          (λ credential.
            send_with env net provider r ready credential
            >>= unless_refused env net provider r ready writes)
          s after_session-sent h)
      ∙ requests-take_session env net provider r ready s

  plain_send-unsent :
      (s : Wire)
      → is_unsent (plain_send env net provider r ready s).0 ≡ true
      → requests (plain_send env net provider r ready s).1.written ≡ requests s.written
  unfolding plain_send
  plain_send-unsent s h =
      ap (λ (w : Wire). requests w.written)
        (unsent_first (lift (auth_headers env provider.auth)) (exchange env net ready provider r) s
          (exchange-sent env net ready provider r) h)

  send_ready-unsent :
      (s : Wire)
      → is_unsent (send_ready env net provider r writes ready s).0 ≡ true
      → requests (send_ready env net provider r writes ready s).1.written ≡ requests s.written
  send_ready-unsent s = by_type (holds_session provider.auth.type) refl
    where
      by_type :
          (b : Bool)
          → holds_session provider.auth.type ≡ b
          → is_unsent (send_ready env net provider r writes ready s).0 ≡ true
          → requests (send_ready env net provider r writes ready s).1.written ≡ requests s.written
      by_type true e = rw e (session_send-unsent s)
      by_type false e = rw e (plain_send-unsent s)

send-unsent :
    (env : Env) (net : Net) (provider : Provider) (r : Request) (s : Wire)
    → is_unsent (send env net provider r writes s).0 ≡ true
    → requests (send env net provider r writes s).1.written ≡ requests s.written
unfolding send
send-unsent env net provider r s = after (prepare env provider r writes)
  where
    after :
        (o : Result Stop Ready)
        → is_unsent (resume o (send_ready env net provider r writes) s).0 ≡ true
        → requests (resume o (send_ready env net provider r writes) s).1.written
          ≡ requests s.written
    after (ok ready) h = send_ready-unsent env net provider r ready s h
    after (err e) h = refl

abbrev reply_unsent : Reply → Bool
reply_unsent (refused e) = says_unsent e
reply_unsent (response a) = false
reply_unsent other = false

reply_of_unsent :
    (env : Env) (o : Result Stop RawResponse) → is_unsent o ≡ reply_unsent (reply_of env o)
reply_of_unsent env (ok a) = refl
reply_of_unsent env (err (stopped e)) = refl
reply_of_unsent env (err (crashed n)) = refl

failed_says_unsent :
    (e : ConfinementError) → (classify_outcome (refused e)).state ≡ failed → says_unsent e ≡ true
unfolding classify_outcome
failed_says_unsent e h = ground (arith, h)

-- If the dispatcher records a write as FAILED because it was refused, then no exchange that carries the
-- write was written: at most a login was.
pub write_failed_unsent :
    (env : Env) (net : Net) (provider : Provider) (r : Request) (s : Wire) (e : ConfinementError)
    → (confined_request env net provider r writes s).0 ≡ refused e
    → (classify_outcome (refused e)).state ≡ failed
    → requests (confined_request env net provider r writes s).1.written ≡ requests s.written
unfolding confined_request
write_failed_unsent env net provider r s e h k = send-unsent env net provider r s (
    reply_of_unsent env (send env net provider r writes s).0
    ∙ (ap reply_unsent h ∙ failed_says_unsent e k))
