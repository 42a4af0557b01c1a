-- ===== src/Confinement/Written.antt =====
-- What a part of worlds/confinement.py adds to what was written: the exchanges of each purpose are
-- counted, and each satisfies a predicate.
use personal_world.Prelude.{
  ℕ, ◌+◌, ◌≤◌, Bool, true, false, List, [], ◌∷◌, ◌++◌, ◌≡◌, refl, arith, ap, sym, ◌∙◌, All,
  All-append, All-map,
}
use mathlib.Core.List.{append_assoc}
use personal_world.Tx.{Result, ok, err, Op, ◌>>=◌, ◌>>◌, lift, resume}
use personal_world.Confinement.Base.{Stop}
use personal_world.Confinement.Login.{require}
use personal_world.Confinement.Exchanges.{Purpose, login, request, Exchange, Wire}

abbrev pub one_login : Purpose → ℕ
one_login login = 1
one_login request = 0

abbrev pub one_request : Purpose → ℕ
one_request login = 0
one_request request = 1

-- How many exchanges are logins, and how many carry the request
unfoldable pub logins : List Exchange → ℕ
logins [] = 0
logins (x ∷ xs) = one_login x.purpose + logins xs

unfoldable pub requests : List Exchange → ℕ
requests [] = 0
requests (x ∷ xs) = one_request x.purpose + requests xs

pub logins-append : (xs ys : List Exchange) → logins (xs ++ ys) ≡ logins xs + logins ys
unfolding logins
logins-append [] ys = omega arith
logins-append (x ∷ xs) ys = omega (arith, logins-append xs ys)

pub requests-append : (xs ys : List Exchange) → requests (xs ++ ys) ≡ requests xs + requests ys
unfolding requests
requests-append [] ys = omega arith
requests-append (x ∷ xs) ys = omega (arith, requests-append xs ys)

-- The exchanges `fresh` were written between the two states, and nothing that was written is lost.
pub record Adds (P : Exchange → Type 0) (l r : ℕ) (s t : Wire) : Type 0 where
  pub fresh : List Exchange
  pub written : t.written ≡ fresh ++ s.written
  pub each : All P fresh
  pub few_logins : logins fresh ≤ l
  pub few_requests : requests fresh ≤ r

module _ {P : Exchange → Type 0} where
  pub Adds-none : (l r : ℕ) {s t : Wire} → t.written ≡ s.written → Adds P l r s t
  unfolding logins requests
  Adds-none l r e = record {
    fresh = [];
    written = e;
    each = tt;
    few_logins = omega arith;
    few_requests = omega arith;
  }

  pub Adds-one :
      (x : Exchange) {s t : Wire}
      → t.written ≡ x ∷ s.written
      → P x
      → Adds P (one_login x.purpose) (one_request x.purpose) s t
  unfolding logins requests
  Adds-one x e p = record {
    fresh = x ∷ [];
    written = e;
    each = (p, tt);
    few_logins = omega arith;
    few_requests = omega arith;
  }

  pub Adds-more : {l r k q : ℕ} {s t : Wire} → l ≤ k → r ≤ q → Adds P l r s t → Adds P k q s t
  Adds-more p q a = record {
    fresh = a.fresh;
    written = a.written;
    each = a.each;
    few_logins = omega (arith, p, a.few_logins);
    few_requests = omega (arith, q, a.few_requests);
  }

  pub Adds-then :
      {l r k q : ℕ} {s t u : Wire} → Adds P l r s t → Adds P k q t u → Adds P (l + k) (r + q) s u
  Adds-then {l} {r} {k} {q} {s} {t} {u} a b = record {
    fresh = b.fresh ++ a.fresh;
    written =
        b.written
        ∙ (ap (λ w. b.fresh ++ w) a.written ∙ sym (append_assoc b.fresh a.fresh s.written));
    each = All-append _ b.fresh a.fresh b.each a.each;
    few_logins = omega (arith, logins-append b.fresh a.fresh, a.few_logins, b.few_logins);
    few_requests = omega (arith, requests-append b.fresh a.fresh, a.few_requests, b.few_requests);
  }

  pub Adds-bind :
      {A B : Type 0} {l r k q : ℕ} (m : Op Wire Stop A) (f : A → Op Wire Stop B) (s : Wire)
      → Adds P l r s (m s).1
      → ((a : A) (t : Wire) → Adds P k q t (f a t).1)
      → Adds P (l + k) (r + q) s ((m >>= f) s).1
  Adds-bind {A} {B} {l} {r} {k} {q} m f s h g = Adds-then h (after (m s).0)
    where
      after : (o : Result Stop A) → Adds P k q (m s).1 (resume o f (m s).1).1
      after (ok a) = g a (m s).1
      after (err e) = Adds-none k q refl

  -- A step that only computes or tests
  pub Adds-lift :
      {A B : Type 0} {l r : ℕ} (m : Result Stop A) (f : A → Op Wire Stop B) (s : Wire)
      → ((a : A) → m ≡ ok a → Adds P l r s (f a s).1)
      → Adds P l r s ((lift m >>= f) s).1
  Adds-lift (ok a) f s h = h a refl
  Adds-lift {l} {r} (err e) f s h = Adds-none l r refl

  pub Adds-require :
      {B : Type 0} {l r : ℕ} (b : Bool) (e : Stop) (k : Op Wire Stop B) (s : Wire)
      → (b ≡ true → Adds P l r s (k s).1)
      → Adds P l r s ((require b e >> k) s).1
  Adds-require true e k s h = h refl
  Adds-require {l} {r} false e k s h = Adds-none l r refl

pub Adds-map :
    {P Q : Exchange → Type 0} {l r : ℕ} {s t : Wire}
    → ((x : Exchange) → P x → Q x)
    → Adds P l r s t
    → Adds Q l r s t
Adds-map {P} {Q} f a = record {
  fresh = a.fresh;
  written = a.written;
  each = All-map P Q f a.fresh a.each;
  few_logins = a.few_logins;
  few_requests = a.few_requests;
}
