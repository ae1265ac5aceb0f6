-- ===== src/GoalRunner/Runner/Verdict.antt =====
-- The verdict on a goal in src/goal-runner/runner.ts.
use text.Mathlib.TextEquality.{eq_iff}
use atlas_cli.Prelude.{
  ◌≤◌, String, List, [], ◌∷◌, ◌≡◌, ◌≢◌, ◌↔◌, refl, All, arith, length, length-filter-le, includes,
  string_eq,
}
use atlas_cli.GoalRunner.Contract.{TaskReport, completed}
use atlas_cli.GoalRunner.Runner.{count_status, goal_status}

abbrev pub IsVerified : TaskReport → Type 0
IsVerified r = r.final_status ≡ "verified"

count-le : (statuses : List String) (rs : List TaskReport) → count_status statuses rs ≤ length rs
count-le statuses rs = length-filter-le (λ r. includes statuses r.final_status) rs

All-IsVerified :
    (rs : List TaskReport) → (count_status ("verified" ∷ []) rs ≡ length rs) ↔ All IsVerified rs
All-IsVerified [] = (λ h. tt, λ h. refl)
All-IsVerified (r ∷ rs) =
    ground
      (arith, eq_iff "verified" r.final_status, count-le ("verified" ∷ []) rs, All-IsVerified rs)

none_escalated : (rs : List TaskReport) → All IsVerified rs → count_status ("escalated" ∷ []) rs ≡ 0
none_escalated [] h = refl
none_escalated (r ∷ rs) h = rw h.0 (none_escalated rs h.1)

-- A goal is reported as completed exactly when it has a report, and every report is of a verified
-- task.
pub goal_status-completed_iff :
    (rs : List TaskReport) → (goal_status rs ≡ completed) ↔ ((rs ≢ []) × All IsVerified rs)
unfolding goal_status
goal_status-completed_iff [] = (λ h. cc, λ h. absurd (h.0 refl))
goal_status-completed_iff (r ∷ rs) =
    let all = All-IsVerified (r ∷ rs) in
    (
      λ h. ((λ e. cc), all.0 (ground (arith, h))),
      λ h. ground (arith, all.1 h.1, none_escalated (r ∷ rs) h.1),
    )
