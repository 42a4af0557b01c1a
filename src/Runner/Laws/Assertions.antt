-- ===== src/Runner/Laws/Assertions.antt =====
-- What the assertions of a request say, apart from how they are tested.
use personal_world.Prelude.{
  ℕ, String, true, false, none, some, List, [], ◌∷◌, ◌≡◌, ◌≢◌, inl, inr, refl, arith, ap, All, all,
  codes, nat_eq, Bool-cases,
}
use personal_world.Value.{Value}
use personal_world.Tx.{Result, ok, err}
use personal_world.Config.Models.{Assertion}
use personal_world.Mapping.Path.{PathError, mapping_error, value_error, no_fuel}
use personal_world.Mapping.Resolve.{resolve, Resolved}
use personal_world.Runner.Fetch.{Runner}
use personal_world.Runner.Classify.{
  check_assertion, check_assertions, check_found, check_resolved, wrong_status, is_arr, is_nil,
  is_null, is_only,
}

-- What is found at an assertion's path is as it says.
pub record FitsPath (r : Runner) (a : Assertion) (res : Resolved) : Type 0 where
  pub exists : a.exists ≡ some true → res.found ≡ true
  pub is_list : a.is_list ≡ some true → (res.values ≢ []) × (all is_arr res.values ≡ true)
  pub equals : is_null a.equals ≡ false → is_only r.python a.equals res.values ≡ true

pub record Holds (r : Runner) (status : ℕ) (doc : Value) (a : Assertion) : Type 0 where
  pub status_fits : (n : ℕ) → a.status ≡ some n → n ≡ status
  pub path_fits :
      (path : String)
      → a.path ≡ some path
      → (res : Resolved) × (resolve r.digits doc (codes path) ≡ ok res) × FitsPath r a res

not_nil : (vs : List Value) → is_nil vs ≡ false → vs ≢ []
not_nil vs h e = absurd (cc (h, ap is_nil e))

check_found-none :
    (r : Runner) (a : Assertion) (path : String) (res : Resolved)
    → check_found r a path res ≡ none
    → FitsPath r a res
unfolding check_found
check_found-none r a path res h = record {
  exists = λ e. ground (arith, h, e);
  is_list = λ e. (not_nil res.values (ground (arith, h, e)), ground (arith, h, e));
  equals = λ e. ground (arith, h, e);
}

check_resolved-none :
    (r : Runner) (a : Assertion) (path : String) (x : Result PathError Resolved)
    → check_resolved r a path x ≡ ok none
    → (res : Resolved) × (x ≡ ok res) × FitsPath r a res
check_resolved-none r a path (ok res) h =
    (res, refl, check_found-none r a path res (ground (arith, h)))
check_resolved-none r a path (err mapping_error) h = absurd (ground (arith, h))
check_resolved-none r a path (err value_error) h = absurd (ground (arith, h))
check_resolved-none r a path (err no_fuel) h = absurd (ground (arith, h))

check_assertion-none :
    (r : Runner) (status : ℕ) (doc : Value) (a : Assertion)
    → check_assertion r status doc a ≡ ok none
    → Holds r status doc a
unfolding check_assertion
check_assertion-none r status doc a h = elim (Bool-cases (wrong_status a.status status)) [
  | inl w ↦ absurd (ground (arith, h, w))
  | inr w ↦ record {
    status_fits = λ n e. ground (arith, w, e);
    path_fits = λ path e. check_resolved-none r a path _ (at_path w path e);
  }
]
  where
    at_path :
        wrong_status a.status status ≡ false
        → (path : String) → a.path ≡ some path
        → check_resolved r a path (resolve r.digits doc (codes path)) ≡ ok none
    at_path w path e = ground (arith, h, w, e)

-- Where the loop finds no failure, every assertion holds.
pub check_assertions-none :
    (r : Runner) (status : ℕ) (doc : Value) (as_said : List Assertion)
    → check_assertions r status doc as_said ≡ ok none
    → All (Holds r status doc) as_said
unfolding check_assertions
check_assertions-none r status doc [] h = tt
check_assertions-none r status doc (a ∷ rest) h = (
  check_assertion-none r status doc a (ground (arith, h)),
  check_assertions-none r status doc rest (ground (arith, h)),
)
