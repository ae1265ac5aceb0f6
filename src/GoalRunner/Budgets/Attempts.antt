-- ===== src/GoalRunner/Budgets/Attempts.antt =====
-- The numbers of attempts in the budget files of src/goal-runner/budgets.ts.
use text.Mathlib.TextEquality.{eq_iff}
use atlas_cli.Prelude.{
  ℕ, ◌+◌, ◌≤◌, String, true, Option, none, some, ◌≡◌, refl, subst, arith, inl, inr, Bool-cases,
  ◌==◌, string_eq, is_present, if◌then◌else◌,
}
use atlas_cli.Prelude.Dict.{get, get-put}
use atlas_cli.GoalRunner.Budgets.{
  GoalRunnerConfig, GoalBudget, BudgetFile, budget, corrupt, BudgetDir, save_budget, load_budget,
  attempts_of, check_budget, attempted, fresh_budget, release_lease, create_budget, Signal,
  acquire_lease, blocks,
}

-- A budget of the configuration `c` with at most `total` attempts, and at most `each` of one task.
pub record Fits (c : GoalRunnerConfig) (total each : ℕ) (b : GoalBudget) : Type 0 where
  pub config : b.config ≡ c
  pub all : b.total_attempts ≤ total
  pub one : (task : String) → is_present task ≡ true → attempts_of b task ≤ each

abbrev pub IsBelow : ℕ → ℕ → GoalBudget → Type 0
IsBelow total each b =
    (b.total_attempts ≤ total)
    × ((task : String) → is_present task ≡ true → attempts_of b task ≤ each)

-- Every budget file is within these numbers.
abbrev pub IsWithin : ℕ → ℕ → BudgetDir → Type 0
IsWithin total each d =
    (goal_id : String) (b : GoalBudget) → load_budget goal_id d ≡ some b → IsBelow total each b

abbrev opened : Option BudgetFile → Option GoalBudget
opened none = none
opened (some (budget b)) = some b
opened (some corrupt) = none

load-opened :
    (goal_id : String) (d : BudgetDir) → load_budget goal_id d ≡ opened (get d.files goal_id)
unfolding load_budget
load-opened goal_id d = ground arith

load-save :
    (b : GoalBudget) (d : BudgetDir) (goal_id : String)
    → load_budget goal_id (save_budget b d)
      ≡ (if b.goal_id == goal_id then some b else load_budget goal_id d)
unfolding save_budget
load-save b d goal_id = ground (
  arith,
  load-opened goal_id (save_budget b d),
  load-opened goal_id d,
  get-put d.files b.goal_id goal_id (budget b),
)

pub save-IsWithin :
    (total each : ℕ) (b : GoalBudget) (d : BudgetDir)
    → IsWithin total each d
    → IsBelow total each b
    → IsWithin total each (save_budget b d)
save-IsWithin total each b d h f goal_id b' e = elim (Bool-cases (b.goal_id == goal_id)) [
  | inl own ↦
      let same : b ≡ b' = ground (arith, load-save b d goal_id, e) in
      subst (IsBelow total each) same f
  | inr other ↦ h goal_id b' (ground (arith, load-save b d goal_id, e))
]

pub fresh-Fits :
    (c : GoalRunnerConfig) (total each now : ℕ) (goal_id : String)
    → Fits c total each (fresh_budget goal_id c now)
unfolding get
fresh-Fits c total each now goal_id = record {
  config = refl;
  all = omega arith;
  one = λ task p. omega arith;
}

-- An attempt that the check allows stays within the caps of the configuration.
pub attempted-Fits :
    (c : GoalRunnerConfig) (total each now : ℕ) (b : GoalBudget) (task fingerprint : String)
    → c.max_total_attempts ≤ total
    → c.max_attempts_per_task ≤ each
    → check_budget b task now ≡ none
    → Fits c total each b
    → Fits c total each (attempted b task fingerprint)
unfolding check_budget
attempted-Fits c total each now b task fingerprint ht he ok f = record {
  config = f.config;
  all = ground (arith, ok, f.config, f.all);
  one = λ other p. ground (
    arith,
    ok,
    f.config,
    f.one other p,
    get-put b.task_attempts task other (attempts_of b task + 1),
    eq_iff task other,
    he,
  );
}

pub create-IsWithin :
    (c : GoalRunnerConfig) (total each now : ℕ) (goal_id : String) (d : BudgetDir)
    → IsWithin total each d
    → IsWithin total each (create_budget goal_id c now d).1
unfolding create_budget
create-IsWithin c total each now goal_id d h =
    let f = fresh-Fits c total each now goal_id in
    save-IsWithin total each (fresh_budget goal_id c now) d h (f.all, f.one)

pub release-IsWithin :
    (total each : ℕ) (goal_id : String) (d : BudgetDir)
    → IsWithin total each d
    → IsWithin total each (release_lease goal_id d)
unfolding release_lease load_budget
release-IsWithin total each goal_id d h = h

pub acquire-IsWithin :
    (total each : ℕ) (kill : ℕ → Signal) (pid now : ℕ) (goal_id : String) (d : BudgetDir)
    → IsWithin total each d
    → IsWithin total each (acquire_lease kill pid now goal_id d).1
unfolding acquire_lease load_budget
acquire-IsWithin total each kill pid now goal_id d h =
    elim (Bool-cases (blocks kill goal_id d.lease)) [ inl b ↦ rw b h | inr b ↦ rw b h ]
