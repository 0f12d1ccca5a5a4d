-- ===== src/Config/Cycle.antt =====
-- src/config/validate.rs: `detect_cycle`, a depth-first search with three colours and an explicit
-- stack, and `validate` with all its checks. A `HashMap` is its list of entries, in the order in
-- which it is iterated; the map of colours is a function. `out_of_fuel` is not in the program.
pub mod Push
pub mod Invariant
pub mod Step
pub mod Enter
pub mod Ends
pub mod Decides
pub mod Accepts
pub mod Source
use boi.Prelude.{
  ℕ, zero, suc, ◌+◌, ◌*◌, String, List, [], ◌∷◌, Bool, true, false, Option, none, some, Result, ok,
  err, ◌>>=◌, ◌==◌, length, Check, if◌then◌else◌,
}
use boi.Config.Spec.{ConfigError, dependency_cycle, RawTask, RawSpec}
use boi.Config.Checks.{check_structure}

abbrev pub Graph : Type 0
Graph = List (String × List String)

-- `graph.get(node).copied().unwrap_or(&[])`
unfoldable pub children : Graph → String → List String
children [] n = []
children ((k, deps) ∷ g) n = if k == n then deps else children g n

pub data Colour : Type 0 where
  white grey black : Colour

abbrev pub Colours : Type 0
Colours = String → Option Colour

abbrev pub insert : Colours → String → Colour → Colours
insert c k v x = if k == x then some v else c x

unfoldable pub all_white : Graph → Colours
all_white [] x = none
all_white ((k, _) ∷ g) x = if k == x then some white else all_white g x

abbrev pub is_grey : Option Colour → Bool
is_grey (some grey) = true
is_grey _ = false

abbrev pub is_white : Option Colour → Bool
is_white (some white) = true
is_white _ = false

-- A node, and whether it is being left.
abbrev pub Frame : Type 0
Frame = String × Bool

abbrev pub Stack : Type 0
Stack = List Frame

-- The `match` on the colour of a dependency; the error is the dependency.
abbrev pub schedule : Option Colour → String → Stack → Result String Stack
schedule (some grey) dep stack = err dep
schedule (some white) dep stack = ok ((dep, false) ∷ stack)
schedule (some black) dep stack = ok stack
schedule none dep stack = ok stack

unfoldable pub push_deps : Colours → List String → Stack → Result String Stack
push_deps c [] stack = ok stack
push_deps c (dep ∷ deps) stack = schedule (c dep) dep stack >>= push_deps c deps

abbrev pub recolour : Colours → Result String Stack → Result String (Colours × Stack)
recolour c (ok stack) = ok (c, stack)
recolour c (err dep) = err dep

-- One round of the `while` loop, after the frame left the stack. Each node of a frame has a colour,
-- so the indexing of the source does not panic.
unfoldable pub step : Graph → Colours → Frame → Stack → Result String (Colours × Stack)
unfolding push_deps children
step g c (node, true) stack = ok (insert c node black, stack)
step g c (node, false) stack =
    if is_grey (c node)
    then ok (c, stack)
    else recolour (insert c node grey)
        (push_deps (insert c node grey) (children g node) ((node, true) ∷ stack))

pub data Search : Type 0 where
  cyclic : String → Search
  explored : Colours → Search
  out_of_fuel : Search

abbrev pub continue : Result String (Colours × Stack) → (Colours → Stack → Search) → Search
continue (err dep) rest = cyclic dep
continue (ok (c, stack)) rest = rest c stack

unfoldable pub run : Graph → ℕ → Colours → Stack → Search
unfolding step
run g zero c stack = out_of_fuel
run g (suc fuel) c [] = explored c
run g (suc fuel) c (frame ∷ stack) = continue (step g c frame stack) (run g fuel)

unfoldable pub edges : Graph → ℕ
edges [] = 0
edges ((_, deps) ∷ g) = length deps + edges g

abbrev pub fuel_for : Graph → ℕ
fuel_for g = 2 * edges g + 3

abbrev pub from_start : Graph → Colours → String → Bool → Search
from_start g c start true = run g (fuel_for g) c ((start, false) ∷ [])
from_start g c start false = explored c

abbrev pub and_then : Search → (Colours → Search) → Search
and_then (explored c) rest = rest c
and_then (cyclic dep) rest = cyclic dep
and_then out_of_fuel rest = out_of_fuel

-- The loop over the keys of the graph.
unfoldable pub from_keys : Graph → Graph → Colours → Search
unfolding run edges
from_keys g [] c = explored c
from_keys g ((start, _) ∷ rest) c =
    and_then (from_start g c start (is_white (c start))) (from_keys g rest)

abbrev pub verdict : Search → Option (Check ConfigError)
verdict (explored _) = some (ok tt)
verdict (cyclic dep) = some (err (dependency_cycle dep))
verdict out_of_fuel = none

unfoldable pub detect_cycle : Graph → Option (Check ConfigError)
unfolding from_keys all_white
detect_cycle g = verdict (from_keys g g (all_white g))

abbrev pub entry : Option String → List String → Graph → Graph
entry none deps g = g
entry (some r) deps g = (r, deps) ∷ g

-- The tasks that have a ref, which `check_ref_uniqueness` has found distinct.
abbrev pub graph_of : List RawTask → Graph
graph_of [] = []
graph_of (task ∷ tasks) = entry task.task_ref task.blocked_by (graph_of tasks)

abbrev pub if_ok : Check ConfigError → Option (Check ConfigError) → Option (Check ConfigError)
if_ok (ok _) rest = rest
if_ok (err e) rest = some (err e)

-- `none` is never the answer, see `Decides`.
unfoldable pub validate : {Toml : Type 0} → RawSpec Toml → Option (Check ConfigError)
unfolding detect_cycle
validate raw = if_ok (check_structure raw) (detect_cycle (graph_of raw.tasks))
