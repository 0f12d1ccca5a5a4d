-- ===== src/Examples.antt =====
-- Concrete stores, runs of the program on them, and the theorems at these inputs.
mod Store
mod Bus
mod Scheduler
mod Routing
mod Config
mod Types
mod Dispatch
mod PlanLayer
mod Clean
