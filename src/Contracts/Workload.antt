-- ===== src/Contracts/Workload.antt =====
-- Workload classes: memory_scheduler.py's RANK and root_workload.
use mta_runtime_intramind.Base.{ℕ, Bool, true, false}
use mta_runtime_intramind.Contracts.Operation.{
  Priority, qa, user_task, background, maintenance, interactive,
}

-- `root_workload`; its range is the four workload classes
abbrev pub root_workload : Priority → Priority
root_workload interactive = user_task
root_workload p = p

-- RANK; `interactive` is no key of it, and no workload class
abbrev pub rank : Priority → ℕ
rank qa = 0
rank user_task = 1
rank background = 2
rank maintenance = 3
rank interactive = 1

abbrev pub is_qa : Priority → Bool
is_qa qa = true
is_qa _ = false
