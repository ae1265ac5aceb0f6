-- ===== src/Hands/Adapter.antt =====
-- src/hands/exec-graph-adapter.ts: a hand gets a task, hands in a receipt, gives up, or is judged.
use Prim.Native.String.{◌++◌ as ◌⊕◌}
use atlas_cli.Prelude.{
  ℕ, String, Bool, true, false, not, ◌&&◌, ◌||◌, Option, none, some, List, [], ◌∷◌, every, any,
  if◌then◌else◌, includes, is_present, ◌==◌, string_eq, ℕ_eq, zero, suc,
}
use atlas_cli.Prelude.Dict.{Dict}
use atlas_cli.Prelude.Action.{
  Result, ok, thrown, Action, pure, gets, lift, or_throw, throw_if, ◌>>=◌, ◌>>◌,
}
use atlas_cli.ExecGraph.Contracts.{
  Task, TaskStatus, delegated, in_progress, blocked, evidence_submitted, verified, rejected,
  status_Eq, Evidence, tool_receipt, kind_Eq, Runtime,
}
use atlas_cli.ExecGraph.Transitions.{Failure}
use atlas_cli.ExecGraph.Ledger.{World, Act}
use atlas_cli.ExecGraph.Api.{get_task, move_task, add_evidence, is_hand_owner}
use atlas_cli.ExecGraph.Inputs.{MoveTaskInput}
use atlas_cli.ExecGraph.VerifierPort.{move_task_as_verifier, reassign_owner_as_verifier}
use atlas_cli.Hands.Contract.{
  ReceiptKind, Receipt, receipt_schema, HandSpec, foreground_only, read_only_unattended, get_hand,
  classify_risk, DelegationRiskClass,
}
use atlas_cli.Hands.Secrets.{has_secret}
use atlas_cli.Hands.Verifier.{Disk, VerifyReason, verify, RefuterResult, run_refuter}

pub data HandFailure : Type 0 where
  hand_not_found context adapter receipt_secret task_mismatch schema : HandFailure
  graph : Failure → HandFailure

-- The JSON text of a note, read: not JSON, JSON of another shape than a receipt's, or a receipt.
pub data Note : Type 0 where
  not_json other_shape : Note
  receipt : Receipt → Note

-- SHA-256 of a receipt's canonical JSON, `JSON.stringify` and `JSON.parse` of receipts, the hands
-- that the manifests declare, and the texts of a kind and of the reasons.
pub record HandPlatform : Type 0 where
  pub receipt_hash : Receipt → String
  pub stringify : Receipt → String
  pub parse : String → Note
  pub manifests : Dict HandSpec
  pub kind_text : ReceiptKind → String
  pub describe : Receipt → VerifyReason → String
  pub describe_refuter : RefuterResult → String

abbrev pub HandAct : Type 0 → Type 0
HandAct A = Action World HandFailure A

-- A call of src/exec-graph, whose errors pass through.
abbrev pub relabel : {A : Type 0} → Result Failure A × World → Result HandFailure A × World
relabel (ok a, w) = (ok a, w)
relabel (thrown e, w) = (thrown (graph e), w)

unfoldable pub on_graph : {A : Type 0} → Act A → HandAct A
on_graph m w = relabel (m w)

pub record HandContext : Type 0 where
  pub unattended : Bool
  pub actions : Option (List String)

abbrev is_foreground_only : HandSpec → Bool
is_foreground_only hand = elim hand.autonomy [
  | foreground_only ↦ true
  | read_only_unattended ↦ false
]

-- `assertHandAllowedInContext` does not throw.
unfoldable pub is_hand_allowed_in_context : HandSpec → HandContext → Bool
is_hand_allowed_in_context hand ctx =
    not (ctx.unattended && is_foreground_only hand) && (elim ctx.actions [
      | none ↦ true
      | some actions ↦ every (includes hand.allowed_actions) actions
    ])

unfoldable pub is_active_hand_owner : Task → Bool
is_active_hand_owner task =
    is_hand_owner task.owner && (task.status == delegated || task.status == in_progress)

abbrev pub is_receipt_evidence : Evidence → Bool
is_receipt_evidence e = e.kind == tool_receipt

-- `findLatestReceiptEvidence`: the last one of a list
unfoldable pub latest_receipt : List Evidence → Option Evidence
latest_receipt [] = none
latest_receipt (e ∷ es) = elim (latest_receipt es) [
  | some later ↦ some later
  | none ↦ if is_receipt_evidence e then some e else none
]

pub record Verdict : Type 0 where
  pub verified : Bool
  pub reason : String
  pub refuter : RefuterResult

pub record VerifyAndTransitionResult : Type 0 where
  pub final_status : TaskStatus
  pub verdict : Verdict

abbrev pub move_input : String → TaskStatus → String → Option (List String) → String → MoveTaskInput
move_input task_id to actor refs note = record {
  task_id = task_id;
  to = to;
  actor = actor;
  ts = none;
  evidence_refs = refs;
  note = some note;
}

-- `text.slice(n)` of a text whose first `n` characters are one code unit each
abbrev drop_chars : ℕ → String → String
drop_chars zero s = s
drop_chars (suc n) String.[] = ""
drop_chars (suc n) (String.◌∷◌ c s) = drop_chars n s

module _ ⦃rt : Runtime⦄ ⦃hp : HandPlatform⦄ where
  -- The verdict on a receipt: the check, and, where the risk asks for it, the second check, on the
  -- disk as it is then.
  unfoldable pub judge : Disk → Disk → DelegationRiskClass → Receipt → Verdict
  judge now later risk r =
      let primary = verify now r in
      let refuter = run_refuter later risk r primary.verified in
      if primary.verified && (not refuter.triggered || refuter.passed)
      then record { verified = true; reason = hp.describe r primary.reason; refuter = refuter }
      else record {
        verified = false;
        reason =
            if not primary.verified
            then hp.describe r primary.reason
            else "refuter disagreement: " ⊕ hp.describe_refuter refuter;
        refuter = refuter;
      }

  unfoldable pub assign_hand : String → String → String → Bool → HandAct Task
  assign_hand task_id hand_id actor unattended = do
    hand ← or_throw (get_hand hp.manifests hand_id) hand_not_found
    throw_if
        (not (is_hand_allowed_in_context hand (record { unattended = unattended; actions = none })))
        context
    found ← gets (λ w. get_task w task_id)
    task ← or_throw found adapter
    throw_if (is_active_hand_owner task) context
    on_graph (move_task (move_input task_id delegated actor none ("assigned to hand:" ⊕ hand_id)))
    on_graph (
        reassign_owner_as_verifier task_id ("hand:" ⊕ hand_id)
          (record { actor = actor; reason = "assigned to hand " ⊕ hand_id; ts = none }))

  -- `if (current.status === 'delegated') …`
  unfoldable pub start_work : String → Receipt → TaskStatus → HandAct (Unit {0})
  start_work task_id r status =
      if status == delegated
      then on_graph (
          move_task (
            move_input task_id in_progress r.submitted_by none
              "receipt submission requires in-progress"))
        >> pure tt
      else pure tt

  -- `submitReceipt` behind its checks.
  unfoldable pub record_receipt : String → Receipt → TaskStatus → HandAct Task
  record_receipt task_id r status = do
    start_work task_id r status
    on_graph (
        add_evidence (record {
          task_id = task_id;
          evidence = record {
            ref = hp.receipt_hash r;
            kind = tool_receipt;
            note = some (hp.stringify r);
          };
          actor = some r.submitted_by;
          ts = none;
        }))
    on_graph (
        move_task (
          move_input task_id evidence_submitted r.submitted_by (some (hp.receipt_hash r ∷ []))
            ("receipt kind=" ⊕ hp.kind_text r.kind)))

  unfoldable pub submit_receipt : String → Receipt → HandAct Task
  submit_receipt task_id r = do
    throw_if (not (receipt_schema r)) schema
    throw_if (not (r.task_id == task_id)) task_mismatch
    throw_if (has_secret r) receipt_secret
    found ← gets (λ w. get_task w task_id)
    task ← or_throw found adapter
    let submitted = any (λ e. is_receipt_evidence e && e.ref == hp.receipt_hash r) task.evidence
    if submitted then pure task else record_receipt task_id r task.status

  unfoldable pub abort_hand_task : String → String → String → HandAct Task
  abort_hand_task task_id actor reason = do
    found ← gets (λ w. get_task w task_id)
    task ← or_throw found adapter
    throw_if (not (task.status == delegated || task.status == in_progress)) adapter
    on_graph (move_task (move_input task_id blocked actor none ("hand task aborted: " ⊕ reason)))

  unfoldable pub derive_hand_allowed_actions : Task → List String
  derive_hand_allowed_actions task =
      if not (is_hand_owner task.owner)
      then []
      else elim (get_hand hp.manifests (drop_chars 5 task.owner)) [
        | none ↦ []
        | some hand ↦ hand.allowed_actions
      ]

  -- `parseReceiptFromEvidenceNote`
  unfoldable pub receipt_of_evidence : Evidence → Result HandFailure Receipt
  receipt_of_evidence e = elim e.note [
    | none ↦ thrown adapter
    | some note ↦ if not (is_present note) then thrown adapter else elim (hp.parse note) [
      | not_json ↦ thrown adapter
      | other_shape ↦ thrown schema
      | receipt r ↦ if receipt_schema r then ok r else thrown schema
    ]
  ]

  unfoldable pub settle_unproven : String → String → HandAct VerifyAndTransitionResult
  settle_unproven task_id actor = do
    moved ← on_graph (
        move_task_as_verifier
          (move_input task_id rejected actor none "no receipt evidence found to verify"))
    pure (record {
      final_status = moved.status;
      verdict = record {
        verified = false;
        reason = "no receipt evidence found to verify";
        refuter = record { triggered = false; passed = true };
      };
    })

  -- The end of `verifyAndTransition`, from the verdict on.
  unfoldable pub settle : String → String → Evidence → Verdict → HandAct VerifyAndTransitionResult
  settle task_id actor e verdict = do
    moved ← on_graph (
        move_task_as_verifier (
          if verdict.verified
          then move_input task_id verified actor (some (e.ref ∷ [])) ("verified: " ⊕ verdict.reason)
          else move_input task_id rejected actor none ("rejected: " ⊕ verdict.reason)))
    pure (record { final_status = moved.status; verdict = verdict })

  unfoldable pub verify_and_transition :
      Disk → Disk → String → String → HandAct VerifyAndTransitionResult
  verify_and_transition now later task_id actor = do
    found ← gets (λ w. get_task w task_id)
    task ← or_throw found adapter
    throw_if (not (task.status == evidence_submitted)) adapter
    elim (latest_receipt task.evidence) [
      | none ↦ settle_unproven task_id actor
      | some e ↦ lift (receipt_of_evidence e) >>= λ r.
          settle task_id actor e
            (judge now later (classify_risk task.title (derive_hand_allowed_actions task)) r)
    ]
