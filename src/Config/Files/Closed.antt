-- ===== src/Config/Files/Closed.antt =====
-- The references between the loaded objects, under `save` and `delete`.
use personal_world.Prelude.{
  String, Bool, true, false, some, List, [], ◌∷◌, ◌||◌, not, all, any, ◌≡◌, ◌⊎◌, inl, inr, refl,
  arith, sym, subst, ◌==◌, string_eq, dict_get, dict_put, dict_del, get-put, get-del, get-all,
  is_some, Bool-cases,
}
use personal_world.Config.Models.{Request, Action}
use personal_world.Config.Files.Objects.{
  Kind, providers, requests, cards, boards, actions, Card, BoardItem, Board, Object, Objects,
  put_object, del_object,
}
use personal_world.Config.Files.References.{
  request_ids, policy_ok, has_request, has_card, known_request, fits, check_references,
  not_referenced,
}

-- Every reference leads to a loaded object, and every action respects its request's effect.
pub record IsClosed (o : Objects) : Type 0 where
  pub of_request :
      (k : String) (r : Request)
      → dict_get k o.all_requests ≡ some r
      → is_some (dict_get r.provider o.all_providers) ≡ true
  pub of_card :
      (k : String) (c : Card)
      → dict_get k o.all_cards ≡ some c
      → all (has_request o) (request_ids c) ≡ true
  pub of_board :
      (k : String) (b : Board) → dict_get k o.all_boards ≡ some b → all (has_card o) b.items ≡ true
  pub of_action :
      (k : String) (a : Action)
      → dict_get k o.all_actions ≡ some a
      → known_request o a (dict_get a.request o.all_requests) ≡ true

has-put :
    {V : Type 0} (k j : String) (v : V) (d : List (String × V))
    → is_some (dict_get j d) ≡ true
    → is_some (dict_get j (dict_put k v d)) ≡ true
has-put k j v d h = ground (arith, get-put k j v d)

has-del :
    {V : Type 0} (k j : String) (d : List (String × V))
    → (j == k) ≡ false
    → is_some (dict_get j d) ≡ true
    → is_some (dict_get j (dict_del k d)) ≡ true
has-del k j d n h = ground (arith, get-del k j d, string_eq.beq_iff k j, string_eq.beq_iff j k)

all_mono :
    {A : Type 0} (p q : A → Bool) (xs : List A)
    → ((x : A) → p x ≡ true → q x ≡ true)
    → all p xs ≡ true
    → all q xs ≡ true
unfolding all
all_mono p q [] h a = refl
all_mono p q (x ∷ xs) h a = ground (arith, h x, all_mono p q xs h)

-- Where no element is `k`, a test that holds of all holds beside "not k" too.
all-apart :
    {A : Type 0} (p q uses : A → Bool) (xs : List A)
    → ((x : A) → uses x ≡ false → p x ≡ true → q x ≡ true)
    → any uses xs ≡ false
    → all p xs ≡ true
    → all q xs ≡ true
unfolding all any
all-apart p q uses [] h n a = refl
all-apart p q uses (x ∷ xs) h n a = ground (arith, h x, all-apart p q uses xs h)

any_none :
    {V : Type 0} (uses : String × V → Bool) (k : String) (d : List (String × V)) {v : V}
    → any uses d ≡ false
    → dict_get k d ≡ some v
    → (j : String) × (uses (j, v) ≡ false)
unfolding any dict_get
any_none uses k [] h g = absurd (ground arith)
any_none uses k ((j, w) ∷ d) {v} h g = elim (Bool-cases (j == k)) [
  | inl e ↦ (j, ground (arith, e))
  | inr e ↦ any_none uses k d (ground arith) (ground (arith, e))
]

-- What stands under a key after a put is the new value or what stood there before.
got-put :
    {V : Type 0} (k j : String) (v : V) (d : List (String × V)) {w : V}
    → dict_get j (dict_put k v d) ≡ some w
    → (w ≡ v) ⊎ (dict_get j d ≡ some w)
got-put k j v d h = elim (Bool-cases (k == j)) [
  | inl e ↦ inl (ground (arith, get-put k j v d, e))
  | inr e ↦ inr (ground (arith, get-put k j v d, e))
]

-- An action of a request that is saved was checked against it.
action-put :
    (r : Request) (k : String) (o : Objects) (a : Action)
    → all (fits r) o.all_actions ≡ true
    → dict_get k o.all_actions ≡ some a
    → known_request o a (dict_get a.request o.all_requests) ≡ true
    → known_request o a (dict_get a.request (dict_put r.id r o.all_requests)) ≡ true
action-put r k o a h g c = ground (
  arith,
  get-put r.id a.request r o.all_requests,
  string_eq.beq_iff r.id a.request,
  string_eq.beq_iff a.request r.id,
  get-all (λ x. not (x.request == r.id) || policy_ok x r) k o.all_actions h g,
)

pub put-IsClosed :
    (x : Object) (o : Objects)
    → check_references o x ≡ true
    → IsClosed o
    → IsClosed (put_object x o)
unfolding put_object check_references
put-IsClosed (Object.provider p) o h c = record {
  of_request = λ k r g. has-put p.id r.provider p o.all_providers (c.of_request k r g);
  of_card = λ k x g. c.of_card k x g;
  of_board = λ k x g. c.of_board k x g;
  of_action = λ k x g. c.of_action k x g;
}
put-IsClosed (Object.request r) o h c = record {
  of_request = λ k x g. elim (got-put r.id k r o.all_requests g) [
    | inl e ↦
        subst (λ (y : Request). is_some (dict_get y.provider o.all_providers) ≡ true) (sym e)
          (ground (arith, h))
    | inr old ↦ c.of_request k x old
  ];
  of_card = λ k x g.
      all_mono _ _ (request_ids x) (λ n. has-put r.id n r o.all_requests) (c.of_card k x g);
  of_board = λ k x g. c.of_board k x g;
  of_action = λ k x g. action-put r k o x (ground (arith, h)) g (c.of_action k x g);
}
put-IsClosed (Object.card x) o h c = record {
  of_request = λ k r g. c.of_request k r g;
  of_card = λ k y g. elim (got-put x.id k x o.all_cards g) [
    | inl e ↦ subst (λ (z : Card). all (has_request o) (request_ids z) ≡ true) (sym e) h
    | inr old ↦ c.of_card k y old
  ];
  of_board =
      λ k b g. all_mono _ _ b.items (λ i. has-put x.id i.card x o.all_cards) (c.of_board k b g);
  of_action = λ k a g. c.of_action k a g;
}
put-IsClosed (Object.board b) o h c = record {
  of_request = λ k r g. c.of_request k r g;
  of_card = λ k x g. c.of_card k x g;
  of_board = λ k y g. elim (got-put b.id k b o.all_boards g) [
    | inl e ↦ subst (λ (z : Board). all (has_card o) z.items ≡ true) (sym e) h
    | inr old ↦ c.of_board k y old
  ];
  of_action = λ k a g. c.of_action k a g;
}
put-IsClosed (Object.action a) o h c = record {
  of_request = λ k r g. c.of_request k r g;
  of_card = λ k x g. c.of_card k x g;
  of_board = λ k b g. c.of_board k b g;
  of_action = λ k y g. elim (got-put a.id k a o.all_actions g) [
    | inl e ↦
        subst (λ (z : Action). known_request o z (dict_get z.request o.all_requests) ≡ true) (sym e)
          h
    | inr old ↦ c.of_action k y old
  ];
}

-- What stands under a key after a removal stood there before.
got-del :
    {V : Type 0} (k j : String) (d : List (String × V)) {w : V}
    → dict_get j (dict_del k d) ≡ some w
    → dict_get j d ≡ some w
got-del k j d h = ground (arith, get-del k j d)

-- A value that a key leads to passes no test that no value passes.
got_unused :
    {V : Type 0} (uses : V → Bool) (k : String) (d : List (String × V)) {v : V}
    → any (λ (p : String × V). uses p.1) d ≡ false
    → dict_get k d ≡ some v
    → uses v ≡ false
got_unused uses k d h g = let (j, e) = any_none (λ p. uses p.1) k d h g in e

pub del-IsClosed :
    (kind : Kind) (name : String) (o : Objects)
    → not_referenced o kind name ≡ true
    → IsClosed o
    → IsClosed (del_object kind name o)
unfolding del_object not_referenced
del-IsClosed providers name o h c = record {
  of_request = λ k r g.
      has-del name r.provider o.all_providers
        (got_unused (λ x. x.provider == name) k o.all_requests (ground (arith, h)) g)
        (c.of_request k r g);
  of_card = λ k x g. c.of_card k x g;
  of_board = λ k b g. c.of_board k b g;
  of_action = λ k a g. c.of_action k a g;
}
del-IsClosed requests name o h c = record {
  of_request = λ k r g. c.of_request k r (got-del name k o.all_requests g);
  of_card = λ k x g.
      all-apart _ _ (λ r. r == name) (request_ids x) (λ r n. has-del name r o.all_requests n)
        (got_unused (λ y. any (λ r. r == name) (request_ids y)) k o.all_cards (ground (arith, h)) g)
        (c.of_card k x g);
  of_board = λ k b g. c.of_board k b g;
  of_action = λ k a g.
      let apart : (a.request == name) ≡ false =
        got_unused (λ x. x.request == name) k o.all_actions (ground (arith, h)) g in
      ground (
        arith,
        get-del name a.request o.all_requests,
        apart,
        string_eq.beq_iff name a.request,
        string_eq.beq_iff a.request name,
        c.of_action k a g,
      );
}
del-IsClosed cards name o h c = record {
  of_request = λ k r g. c.of_request k r g;
  of_card = λ k x g. c.of_card k x (got-del name k o.all_cards g);
  of_board = λ k b g.
      all-apart _ _ (λ (i : BoardItem). i.card == name) b.items
        (λ i n. has-del name i.card o.all_cards n)
        (got_unused (λ y. any (λ (i : BoardItem). i.card == name) y.items) k o.all_boards
          (ground (arith, h)) g)
        (c.of_board k b g);
  of_action = λ k a g. c.of_action k a g;
}
del-IsClosed boards name o h c = record {
  of_request = λ k r g. c.of_request k r g;
  of_card = λ k x g. c.of_card k x g;
  of_board = λ k b g. c.of_board k b (got-del name k o.all_boards g);
  of_action = λ k a g. c.of_action k a g;
}
del-IsClosed actions name o h c = record {
  of_request = λ k r g. c.of_request k r g;
  of_card = λ k x g. c.of_card k x g;
  of_board = λ k b g. c.of_board k b g;
  of_action = λ k a g. c.of_action k a (got-del name k o.all_actions g);
}
