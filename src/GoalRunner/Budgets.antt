-- ===== src/GoalRunner/Budgets.antt =====
-- src/goal-runner/types.ts and src/goal-runner/budgets.ts: the budget file of each goal, and the
-- lease of the goal that runs. Writes of these files succeed, and a rename replaces the whole file.
use atlas_cli.Prelude.{
  ℕ, ◌+◌, ◌-◌, String, Bool, true, false, not, ◌&&◌, Option, none, some, List, [], ◌∷◌, ◌++◌,
  if◌then◌else◌, ltb, leb, includes, ◌==◌, string_eq, ℕ_eq, or_else, is_present,
}
use atlas_cli.Prelude.Dict.{Dict, get, put}
pub mod Attempts

pub record GoalRunnerConfig : Type 0 where
  pub max_attempts_per_task : ℕ
  pub max_total_attempts : ℕ
  pub max_total_tasks : ℕ
  pub max_decomposition_rounds : ℕ
  pub max_graph_depth : ℕ
  pub max_wall_time_ms : ℕ

abbrev pub default_goal_runner_config : GoalRunnerConfig
default_goal_runner_config = record {
  max_attempts_per_task = 3;
  max_total_attempts = 10;
  max_total_tasks = 10;
  max_decomposition_rounds = 2;
  max_graph_depth = 3;
  max_wall_time_ms = 300000;
}

pub record GoalBudget : Type 0 where
  pub goal_id : String
  pub started_at : ℕ
  pub task_attempts : Dict ℕ
  pub total_attempts : ℕ
  pub total_tasks_created : ℕ
  pub decomposition_rounds : ℕ
  pub attempt_fingerprints : List String
  pub config : GoalRunnerConfig

-- A file with a budget, or one that is not JSON.
pub data BudgetFile : Type 0 where
  budget : GoalBudget → BudgetFile
  corrupt : BudgetFile

pub record GoalLease : Type 0 where
  pub goal_id : String
  pub started_at : ℕ
  pub pid : ℕ

-- `active-lease.json`: missing, not JSON, `{}`, or a lease.
pub data LeaseFile : Type 0 where
  missing not_json released : LeaseFile
  held : GoalLease → LeaseFile

-- What `process.kill(pid, 0)` does.
pub data Signal : Type 0 where
  delivered not_permitted no_process : Signal

-- The directory of the budgets.
pub record BudgetDir : Type 0 where
  pub files : Dict BudgetFile
  pub lease : LeaseFile

unfoldable pub save_budget : GoalBudget → BudgetDir → BudgetDir
save_budget b d = record d { files = put d.files b.goal_id (budget b) }

abbrev pub fresh_budget : String → GoalRunnerConfig → ℕ → GoalBudget
fresh_budget goal_id config now = record {
  goal_id = goal_id;
  started_at = now;
  task_attempts = [];
  total_attempts = 0;
  total_tasks_created = 0;
  decomposition_rounds = 0;
  attempt_fingerprints = [];
  config = config;
}

unfoldable pub create_budget : String → GoalRunnerConfig → ℕ → BudgetDir → GoalBudget × BudgetDir
unfolding save_budget
create_budget goal_id config now d = let b = fresh_budget goal_id config now in (b, save_budget b d)

unfoldable pub load_budget : String → BudgetDir → Option GoalBudget
load_budget goal_id d = elim (get d.files goal_id) [
  | none ↦ none
  | some file ↦ elim file [ budget b ↦ some b | corrupt ↦ none ]
]

abbrev pub attempts_of : GoalBudget → String → ℕ
attempts_of b task_id = or_else (get b.task_attempts task_id) 0

-- Why a budget does not allow an attempt, with the number that is over.
pub data BudgetReason : Type 0 where
  wall_time total_attempts total_tasks decomposition_rounds task_attempts : ℕ → BudgetReason

-- `checkBudget` with a task: `none` where an attempt is allowed.
unfoldable pub check_budget : GoalBudget → String → ℕ → Option BudgetReason
check_budget b task_id now =
    let c = b.config in
    if ltb c.max_wall_time_ms (now - b.started_at)
    then some (wall_time (now - b.started_at))
    else if leb c.max_total_attempts b.total_attempts
    then some (total_attempts b.total_attempts)
    else if ltb c.max_total_tasks b.total_tasks_created
    then some (total_tasks b.total_tasks_created)
    else if ltb c.max_decomposition_rounds b.decomposition_rounds
    then some (decomposition_rounds b.decomposition_rounds)
    else if is_present task_id && leb c.max_attempts_per_task (attempts_of b task_id)
    then some (task_attempts (attempts_of b task_id))
    else none

-- what `recordAttempt` makes of the budget
abbrev pub attempted : GoalBudget → String → String → GoalBudget
attempted b task_id fingerprint = record b {
  total_attempts = b.total_attempts + 1;
  task_attempts = put b.task_attempts task_id (attempts_of b task_id + 1);
  attempt_fingerprints = b.attempt_fingerprints ++ fingerprint ∷ [];
}

unfoldable pub record_attempt : GoalBudget → String → String → BudgetDir → GoalBudget × BudgetDir
unfolding save_budget
record_attempt b task_id fingerprint d =
    let b' = attempted b task_id fingerprint in (b', save_budget b' d)

unfoldable pub check_circuit_breaker : GoalBudget → String → Bool
check_circuit_breaker b fingerprint = includes b.attempt_fingerprints fingerprint

-- `isProcessAlive` of a number that is a natural one
unfoldable pub is_process_alive : (ℕ → Signal) → ℕ → Bool
is_process_alive kill pid =
    ltb 0 pid && (elim (kill pid) [ delivered ↦ true | not_permitted ↦ true | no_process ↦ false ])

-- The lease that keeps a goal from running: that of another goal, of a process that is alive.
unfoldable pub blocks : (ℕ → Signal) → String → LeaseFile → Bool
unfolding is_process_alive
blocks kill goal_id (held l) =
    is_present l.goal_id && not (l.goal_id == goal_id) && is_process_alive kill l.pid
blocks kill goal_id _ = false

-- `acquireLease`, by the process `pid` at the time `now`
unfoldable pub acquire_lease : (ℕ → Signal) → ℕ → ℕ → String → BudgetDir → Bool × BudgetDir
acquire_lease kill pid now goal_id d = if blocks kill goal_id d.lease then (false, d) else (
  true,
  record d { lease = held (record { goal_id = goal_id; started_at = now; pid = pid }) },
)

abbrev pub left_by : String → LeaseFile → LeaseFile
left_by goal_id (held l) = if l.goal_id == goal_id then released else held l
left_by goal_id other = other

unfoldable pub release_lease : String → BudgetDir → BudgetDir
release_lease goal_id d = record d { lease = left_by goal_id d.lease }
