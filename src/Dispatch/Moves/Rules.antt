-- ===== src/Dispatch/Moves/Rules.antt =====
-- The life of one authorization and of one execution, as relations between a row before and after.
use personal_world.Prelude.{ℕ, ◌≡◌, String, Option, none, some, true}
use personal_world.Authn.Principal.{Principal}
use personal_world.Dispatch.Rows.{
  Authorization, AuthState, pending, approved, denied, expired, invalidated, consumed, policy_never,
}
use personal_world.Dispatch.Base.{is_open}
use personal_world.Dispatch.Approve.{approved_by_owner, approved_by_project_home}

-- A state in which an authorization ends without being used.
pub data Closing : AuthState → Type 0 where
  to_denied : Closing denied
  to_expired : Closing expired
  to_invalidated : Closing invalidated

pub data AuthMove : Option Authorization → Option Authorization → Type 0 where
  stay : {o : Option Authorization} → AuthMove o o
  born_pending : {a : Authorization} → a.state ≡ pending → AuthMove none (some a)
  born_approved :
      {a : Authorization}
      → a.state ≡ approved
      → a.authority ≡ some policy_never
      → AuthMove none (some a)
  by_owner :
      {a : Authorization} (p : Principal) (now : ℕ)
      → a.state ≡ pending
      → AuthMove (some a) (some (approved_by_owner p now a))
  by_project_home :
      {a : Authorization} (ph_id : String) (now : ℕ)
      → a.state ≡ pending
      → AuthMove (some a) (some (approved_by_project_home ph_id now a))
  close :
      {a : Authorization} {s : AuthState}
      → is_open a.state ≡ true
      → Closing s
      → AuthMove (some a) (some (record a { state = s }))
  use_up :
      {a : Authorization}
      → a.state ≡ approved
      → AuthMove (some a) (some (record a { state = consumed }))

-- Any number of moves.
pub data AuthPath : Option Authorization → Option Authorization → Type 0 where
  here : {o : Option Authorization} → AuthPath o o
  and_then : {o p q : Option Authorization} → AuthMove o p → AuthPath p q → AuthPath o q
