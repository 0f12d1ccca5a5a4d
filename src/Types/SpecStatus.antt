-- ===== src/Types/SpecStatus.antt =====
-- src/types/state.rs: the lifecycle status of a spec and its storage text.
use boi.Types.TaskState.{ParseStateError}
use boi.Prelude.{String, Result, ok, err, ◌≡◌, ◌==◌, arith, eq_iff, if◌then◌else◌, refl}

pub data SpecStatus : Type 0 where
  queued running completed failed canceled : SpecStatus

unfoldable pub as_str : SpecStatus → String
as_str queued = "queued"
as_str running = "running"
as_str completed = "completed"
as_str failed = "failed"
as_str canceled = "canceled"

unfoldable pub from_str : String → Result ParseStateError SpecStatus
from_str s =
    if s == "queued"
    then ok queued
    else if s == "running"
    then ok running
    else if s == "completed"
    then ok completed
    else if s == "failed"
    then ok failed
    else if s == "canceled"
    then ok canceled
    else err (record { kind = "SpecStatus"; got = s })

pub from_str-as_str : (t : SpecStatus) → from_str (as_str t) ≡ ok t
unfolding from_str as_str
from_str-as_str queued = refl
from_str-as_str _ = refl

pub as_str_of_from_str : (s : String) (t : SpecStatus) → from_str s ≡ ok t → s ≡ as_str t
unfolding from_str as_str
as_str_of_from_str s t h = ground (
  arith,
  eq_iff s "queued",
  eq_iff s "running",
  eq_iff s "completed",
  eq_iff s "failed",
  eq_iff s "canceled",
)
