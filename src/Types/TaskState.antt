-- ===== src/Types/TaskState.antt =====
-- src/types/state.rs: the lifecycle state of a task and its storage text.
use boi.Prelude.{String, Result, ok, err, ◌≡◌, ◌↔◌, ◌==◌, arith, eq_iff, if◌then◌else◌, refl}

pub data TaskState : Type 0 where
  not_started active blocked passing canceled : TaskState

pub TaskState-discrete : Discrete TaskState
TaskState-discrete = hlevel

unfoldable pub as_str : TaskState → String
as_str not_started = "not_started"
as_str active = "active"
as_str blocked = "blocked"
as_str passing = "passing"
as_str canceled = "canceled"

-- `kind` names the enum that was parsed.
pub record ParseStateError : Type 0 where
  pub kind : String
  pub got : String

unfoldable pub from_str : String → Result ParseStateError TaskState
from_str s =
    if s == "not_started"
    then ok not_started
    else if s == "active"
    then ok active
    else if s == "blocked"
    then ok blocked
    else if s == "passing"
    then ok passing
    else if s == "canceled"
    then ok canceled
    else err (record { kind = "TaskState"; got = s })

pub from_str-as_str : (t : TaskState) → from_str (as_str t) ≡ ok t
unfolding from_str as_str
from_str-as_str not_started = refl
from_str-as_str _ = refl

pub as_str_of_from_str : (s : String) (t : TaskState) → from_str s ≡ ok t → s ≡ as_str t
unfolding from_str as_str
as_str_of_from_str s t h = ground (
  arith,
  eq_iff s "not_started",
  eq_iff s "active",
  eq_iff s "blocked",
  eq_iff s "passing",
  eq_iff s "canceled",
)

-- A text of the column `state` reads as a state exactly if it is the text that is stored for that
-- state.
pub stored_state : (s : String) (t : TaskState) → (from_str s ≡ ok t) ↔ (s ≡ as_str t)
stored_state s t = (as_str_of_from_str s t, λ e. rw e (from_str-as_str t))
