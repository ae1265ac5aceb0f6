-- ===== src/Hands/Verdicts.antt =====
-- What the verdicts of src/hands/verifier.ts and src/hands/exec-graph-adapter.ts vouch for.
use text.Mathlib.TextEquality.{eq_iff}
use atlas_cli.Prelude.Regex.{units}
use atlas_cli.Prelude.{
  String, true, false, Option, none, some, ◌≡◌, ◌↔◌, ◌⊎◌, refl, ap, ◌∙◌, arith, inl, inr,
  Option-cases, List, every, is_empty, trim, string_eq,
}
use atlas_cli.ExecGraph.Contracts.{Runtime}
use atlas_cli.Hands.Contract.{
  DelegationRiskClass, low, ReceiptKind, file_exists, commit_exists, file_contains,
  command_output_match, browser_action, narrative, BrowserActionResult, Receipt, has_items,
}
use atlas_cli.Hands.Verifier.{
  Disk, verify, verify_file_exists, verify_commit_exists, verify_file_contains, verify_command,
  verify_browser_action, run_refuter, is_protected_path, is_allowlisted_command, contains, words_of,
  present,
}
use atlas_cli.Hands.Adapter.{HandPlatform, judge}

module _ ⦃rt : Runtime⦄ ⦃hp : HandPlatform⦄ where
  -- A receipt is judged verified exactly when its check passes and, unless the risk is low, the
  -- second check passes too, on the disk as it is then.
  pub judge-verified_iff :
      (now later : Disk) (risk : DelegationRiskClass) (r : Receipt)
      → ((judge now later risk r).verified ≡ true)
        ↔ (((verify now r).verified ≡ true) × ((risk ≡ low) ⊎ ((verify later r).verified ≡ true)))
  unfolding judge run_refuter
  judge-verified_iff now later risk r = ground arith

-- What a passed check says of the receipt and of the disk, by the kind of the receipt.
abbrev pub IsConfirmed : Disk → Receipt → ReceiptKind → Type 0
IsConfirmed disk r narrative = ⊥
IsConfirmed disk r file_exists =
    (ref : String) × (r.ref ≡ some ref)
    × (is_protected_path ref ≡ false)
    × (disk.exists ref ≡ some true)
IsConfirmed disk r commit_exists =
    (ref : String) × (r.ref ≡ some ref)
    × (is_protected_path ref ≡ false)
    × (disk.object_type ref ≡ some "commit")
IsConfirmed disk r file_contains =
    (ref : String) × (part : String) × (text : String) × (r.ref ≡ some ref)
    × (is_protected_path ref ≡ false)
    × (r.expected_substring ≡ some part)
    × (disk.read ref ≡ some text)
    × (contains text part ≡ true)
IsConfirmed disk r command_output_match =
    (command : String) × (part : String) × (out : String) × (r.command ≡ some command)
    × (is_protected_path command ≡ false)
    × (is_allowlisted_command command ≡ true)
    × (r.expected_substring ≡ some part)
    × (disk.run (words_of (trim (units command))) ≡ some out)
    × (contains out part ≡ true)
IsConfirmed disk r browser_action =
    (results : List BrowserActionResult) × (has_items r.actions ≡ true)
    × (r.action_results ≡ some results)
    × (is_empty results ≡ false)
    × (every (λ x. x.success) results ≡ true)

present-some : (o : Option String) (s : String) → present o ≡ some s → o ≡ some s
present-some none s e = cc
present-some (some t) s e = ground arith

exists-IsConfirmed :
    (disk : Disk) (r : Receipt)
    → (verify_file_exists disk r).verified ≡ true
    → IsConfirmed disk r file_exists
unfolding verify_file_exists
exists-IsConfirmed disk r h = elim (Option-cases (present r.ref)) [
  | inl e ↦ absurd (ground arith)
  | inr (ref, e) ↦ (ref, present-some r.ref ref e, ground arith, ground arith)
]

commit-IsConfirmed :
    (disk : Disk) (r : Receipt)
    → (verify_commit_exists disk r).verified ≡ true
    → IsConfirmed disk r commit_exists
unfolding verify_commit_exists
commit-IsConfirmed disk r h = elim (Option-cases (present r.ref)) [
  | inl e ↦ absurd (ground arith)
  | inr (ref, e) ↦ elim (Option-cases (disk.object_type ref)) [
    | inl f ↦ absurd (ground arith)
    | inr (out, f) ↦ (
      ref,
      present-some r.ref ref e,
      ground arith,
      f ∙ ap some ((eq_iff out "commit").0 (ground arith)),
    )
  ]
]

contains-IsConfirmed :
    (disk : Disk) (r : Receipt)
    → (verify_file_contains disk r).verified ≡ true
    → IsConfirmed disk r file_contains
unfolding verify_file_contains
contains-IsConfirmed disk r h = elim (Option-cases (present r.ref)) [
  | inl e ↦ absurd (ground arith)
  | inr (ref, e) ↦ elim (Option-cases (present r.expected_substring)) [
    | inl f ↦ absurd (ground arith)
    | inr (part, f) ↦ elim (Option-cases (disk.read ref)) [
      | inl g ↦ absurd (ground arith)
      | inr (text, g) ↦ (
        ref,
        part,
        text,
        present-some r.ref ref e,
        ground arith,
        present-some r.expected_substring part f,
        g,
        ground arith,
      )
    ]
  ]
]

command-IsConfirmed :
    (disk : Disk) (r : Receipt)
    → (verify_command disk r).verified ≡ true
    → IsConfirmed disk r command_output_match
unfolding verify_command
command-IsConfirmed disk r h = elim (Option-cases (present r.command)) [
  | inl e ↦ absurd (ground arith)
  | inr (command, e) ↦ elim (Option-cases (present r.expected_substring)) [
    | inl f ↦ absurd (ground arith)
    | inr (part, f) ↦ elim (Option-cases (disk.run (words_of (trim (units command))))) [
      | inl g ↦ absurd (ground arith)
      | inr (out, g) ↦ (
        command,
        part,
        out,
        present-some r.command command e,
        ground arith,
        ground arith,
        present-some r.expected_substring part f,
        g,
        ground arith,
      )
    ]
  ]
]

browser-IsConfirmed :
    (disk : Disk) (r : Receipt)
    → (verify_browser_action r).verified ≡ true
    → IsConfirmed disk r browser_action
unfolding verify_browser_action
browser-IsConfirmed disk r h = elim (Option-cases r.action_results) [
  | inl e ↦ absurd (ground arith)
  | inr (results, e) ↦ (results, ground arith, e, ground arith, ground arith)
]

-- A check that passes vouches for its receipt: never for a narrative one; a file or a commit is
-- there, under a path that is not protected; a file's text contains the expected part; a command is
-- on the list of read-only ones and names no protected path, and what it prints contains the
-- expected part; browser actions were handed in, with results that all report success.
pub verify-IsConfirmed :
    (disk : Disk) (r : Receipt) → (verify disk r).verified ≡ true → IsConfirmed disk r r.kind
unfolding verify
verify-IsConfirmed disk r h = by_kind r.kind refl
  where
    by_kind : (k : ReceiptKind) → r.kind ≡ k → IsConfirmed disk r k
    by_kind narrative e = absurd (ground arith)
    by_kind file_exists e = exists-IsConfirmed disk r (rw (e, verify) at h)
    by_kind commit_exists e = commit-IsConfirmed disk r (rw (e, verify) at h)
    by_kind file_contains e = contains-IsConfirmed disk r (rw (e, verify) at h)
    by_kind command_output_match e = command-IsConfirmed disk r (rw (e, verify) at h)
    by_kind browser_action e = browser-IsConfirmed disk r (rw (e, verify) at h)
