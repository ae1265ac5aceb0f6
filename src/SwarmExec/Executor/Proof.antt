-- ===== src/SwarmExec/Executor/Proof.antt =====
-- The receipt of a run against the bundle that the run has written.
use Prim.Native.String.{◌++◌ as ◌⊕◌}
use text.Mathlib.TextLemmas.{cons-append, append_cancel_right}
use text.Mathlib.TextEquality.{eq_iff}
use atlas_cli.Prelude.{
  String, true, false, Option, some, ◌≡◌, ◌≢◌, ◌↔◌, refl, ap, subst, sym, ◌∙◌, arith, string_eq,
  is_present, inr,
}
use atlas_cli.Prelude.Action.{ok}
use atlas_cli.ExecGraph.Contracts.{Runtime}
use atlas_cli.ExecGraph.Refinement.Ensures.{After}
use atlas_cli.Hands.Contract.{DelegationRiskClass, Receipt, file_contains}
use atlas_cli.Hands.Verifier.{Disk, verify, verify_file_contains, contains, is_protected_path}
use atlas_cli.Hands.Verdicts.{judge-verified_iff}
use atlas_cli.Hands.Adapter.{HandPlatform, judge}
use atlas_cli.SwarmExec.Completion.{Completion, done, partial, failed}
use atlas_cli.SwarmExec.Bundle.{
  RunBundleInput, RunStore, json, BundlePlatform, dir_at, verified_token, proof_token, bundle_of,
  run_dir, written_of, write_run_bundle, WrittenBundle,
}
use atlas_cli.SwarmExec.Bundle.Writes.{whole, write_run_bundle_lands_last}
use atlas_cli.SwarmExec.Executor.{showing, swarm_receipt}

is_present-append : (s t : String) → is_present s ≡ true → is_present (s ⊕ t) ≡ true
unfolding is_present
is_present-append String.[] t h = cc
is_present-append (String.◌∷◌ c s) t h = rw (cons-append c s t) refl

has_token : (run_id : String) → is_present (verified_token run_id) ≡ true
unfolding is_present
has_token run_id = is_present-append "SWARM-VERIFIED:" run_id refl

not_rejected : (run_id : String) → "SWARM-REJECTED:" ⊕ run_id ≢ verified_token run_id
not_rejected run_id e = ground (
  arith,
  (eq_iff "SWARM-REJECTED:" "SWARM-VERIFIED:").1
      (append_cancel_right "SWARM-REJECTED:" "SWARM-VERIFIED:" run_id e),
)

-- The check of a receipt for a text in a file that can be read.
verify-read :
    (disk : Disk) (r : Receipt) (path part text : String)
    → r.kind ≡ file_contains
    → r.ref ≡ some path
    → r.expected_substring ≡ some part
    → is_present path ≡ true
    → is_present part ≡ true
    → is_protected_path path ≡ false
    → disk.read path ≡ some text
    → (verify disk r).verified ≡ contains text part
unfolding verify verify_file_contains
verify-read disk r path part text k f x p q o e = ground arith

module _ ⦃bp : BundlePlatform⦄ (root : Option String) (input : RunBundleInput) where
  abbrev pub path_of : String
  path_of = bp.bundle_path (run_dir root input.run_id)

  abbrev pub receipt_of : String → Receipt
  receipt_of actor = swarm_receipt input.parent_task_id actor path_of input.run_id input.completion

  read-shown :
      (s : RunStore) (disk : Disk)
      → (dir_at s (run_dir root input.run_id)).bundle ≡ json (bundle_of input)
      → (showing s (run_dir root input.run_id) disk).read path_of
        ≡ some (bp.bundle_text (bundle_of input))
  read-shown s disk there = rw ((eq_iff path_of path_of).1 refl, there) refl

  verify-shown :
      (s : RunStore) (disk : Disk) (actor : String)
      → (dir_at s (run_dir root input.run_id)).bundle ≡ json (bundle_of input)
      → is_present path_of ≡ true
      → is_protected_path path_of ≡ false
      → (verify (showing s (run_dir root input.run_id) disk) (receipt_of actor)).verified
        ≡ contains (bp.bundle_text (bundle_of input)) (verified_token input.run_id)
  unfolding swarm_receipt
  verify-shown s disk actor there present open_path =
      verify-read _ (receipt_of actor) path_of _ _ refl refl refl present (has_token input.run_id)
        open_path (read-shown s disk there)

  proof-verified_iff :
      (proof_token input ≡ verified_token input.run_id) ↔ (input.completion.completion ≡ done)
  unfolding proof_token
  proof-verified_iff = by_completion input.completion.completion refl
    where
      by_completion :
          (c : Completion)
          → input.completion.completion ≡ c
          → (proof_token input ≡ verified_token input.run_id) ↔ (input.completion.completion ≡ done)
      by_completion done e = (λ h. e, λ h. rw e refl)
      by_completion partial e =
          (λ h. absurd (not_rejected input.run_id (rw (e, proof_token) at h)), λ h. cc)
      by_completion failed e =
          (λ h. absurd (not_rejected input.run_id (rw (e, proof_token) at h)), λ h. cc)

  -- The text of a bundle holds the token of a verified run exactly where that is the bundle's
  -- proof.
  abbrev pub IsPlain : Type 0
  IsPlain =
      (contains (bp.bundle_text (bundle_of input)) (verified_token input.run_id) ≡ true)
      ↔ (proof_token input ≡ verified_token input.run_id)

  module _ ⦃rt : Runtime⦄ ⦃hp : HandPlatform⦄ where
    judged :
        (s : RunStore) (disk later : Disk) (risk : DelegationRiskClass) (actor : String)
        → (dir_at s (run_dir root input.run_id)).bundle ≡ json (bundle_of input)
        → is_present path_of ≡ true
        → is_protected_path path_of ≡ false
        → IsPlain
        → let dir = run_dir root input.run_id in
          ((judge (showing s dir disk) (showing s dir later) risk (receipt_of actor)).verified
            ≡ true)
          ↔ (input.completion.completion ≡ done)
    judged s disk later risk actor there present open_path plain =
        let dir = run_dir root input.run_id in
        let verdict =
          judge-verified_iff (showing s dir disk) (showing s dir later) risk (receipt_of actor) in
        let first = verify-shown s disk actor there present open_path in
        let second = verify-shown s later actor there present open_path in
        (
          λ h. proof-verified_iff.0 (plain.0 (sym first ∙ (verdict.0 h).0)),
          λ h.
              let found = plain.1 (proof-verified_iff.1 h) in
              verdict.1 (first ∙ found, inr (second ∙ found)),
        )

    -- Where the bundle of a run has been written, under a path that is not protected, and holds the
    -- token of a verified run only as its proof, the run's receipt is judged verified exactly when
    -- its completion is done, whatever the task's risk and whatever else is on the disk.
    pub receipt-judged_iff :
        (s t : RunStore) (w : WrittenBundle) (disk later : Disk) (risk : DelegationRiskClass)
        (actor : String)
        → write_run_bundle root input s ≡ (ok w, t)
        → is_present path_of ≡ true
        → is_protected_path path_of ≡ false
        → IsPlain
        → ((judge (showing t w.dir disk) (showing t w.dir later) risk (
              swarm_receipt input.parent_task_id actor w.bundle_path input.run_id
                input.completion)).verified
            ≡ true)
          ↔ (input.completion.completion ≡ done)
    receipt-judged_iff s t w disk later risk actor e present open_path plain =
        let landed : (w ≡ written_of root input)
            × (dir_at t (run_dir root input.run_id)
                ≡ whole input (dir_at s (run_dir root input.run_id))) =
          subst (After _ _) e (write_run_bundle_lands_last root input s).0 in
        subst
          (λ v.
            ((judge (showing t v.dir disk) (showing t v.dir later) risk (
                swarm_receipt input.parent_task_id actor v.bundle_path input.run_id
                  input.completion)).verified
              ≡ true)
            ↔ (input.completion.completion ≡ done))
          (sym landed.0)
          (judged t disk later risk actor (ap (λ d. d.bundle) landed.1) present open_path plain)
