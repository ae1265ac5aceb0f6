-- ===== src/SwarmExec/Bundle.antt =====
-- src/swarm-exec/run-bundle.ts: the files of a run, of which bundle.json is written last. A file
-- that is read can be read.
use Prim.Native.String.{◌++◌ as ◌⊕◌}
use atlas_cli.Prelude.{
  ℕ, zero, suc, String, Bool, true, false, Option, none, some, List, [], ◌∷◌, or_else,
}
use atlas_cli.Prelude.Dict.{Dict, get, put}
use atlas_cli.Prelude.Action.{Action, ok, thrown, pure, ◌>>=◌, ◌>>◌}
use atlas_cli.SwarmExec.Completion.{
  Completion, done, GivenPolicy, CompletionReason, CompletionVerdict,
}
pub mod Writes

pub data ProviderHealthState : Type 0 where
  healthy degraded cooldown auth_failed unavailable : ProviderHealthState

pub record ProviderHealthSnapshot : Type 0 where
  pub provider : String
  pub state : ProviderHealthState
  pub responded : Bool
  pub error : Option String

pub record ResponderSummary : Type 0 where
  pub id : ℕ
  pub perspective : Option String
  pub provider : String
  pub ok : Bool
  pub duration_ms : ℕ
  pub error : Option String

-- `WorkerResult` of src/swarm.ts
pub record WorkerResult : Type 0 where
  pub id : ℕ
  pub output : String
  pub provider : String
  pub duration_ms : ℕ
  pub error : Option String

pub record Provenance : Type 0 where
  pub runtime : String
  pub hand : String
  pub actor : String

-- The verdicts of an evaluation and a promotion are given by their JSON.
pub record RunBundleInput : Type 0 where
  pub run_id : String
  pub parent_task_id : String
  pub policy : GivenPolicy
  pub completion : CompletionVerdict
  pub responders : List ResponderSummary
  pub provider_health : List ProviderHealthSnapshot
  pub result : String
  pub trace : List WorkerResult
  pub evidence_tokens : List String
  pub evaluation : Option String
  pub promotion : Option String
  pub started_at : String
  pub completed_at : String
  pub provenance : Provenance

-- What bundle.json holds.
pub record Bundle : Type 0 where
  pub schema_version : ℕ
  pub run_id : String
  pub parent_task_id : String
  pub policy : GivenPolicy
  pub completion : CompletionVerdict
  pub responders_summary_ref : String
  pub provider_health : List ProviderHealthSnapshot
  pub evidence_tokens : List String
  pub evaluation : Option String
  pub promotion : Option String
  pub proof : String
  pub final_reason : CompletionReason
  pub started_at : String
  pub completed_at : String
  pub provenance : Provenance
  pub complete : Bool
  pub artifacts : List String

pub data BundleFile : Type 0 where
  missing not_json : BundleFile
  json : Bundle → BundleFile

-- The directory of a run: what its files hold.
pub record RunDir : Type 0 where
  pub result : Option String
  pub trace : Option (List WorkerResult)
  pub provider_health : Option (List ProviderHealthSnapshot)
  pub evidence_manifest : Option (List String × List String)
  pub responder_summary : Option (List ResponderSummary)
  pub bundle : BundleFile

abbrev pub empty_dir : RunDir
empty_dir = record {
  result = none;
  trace = none;
  provider_health = none;
  evidence_manifest = none;
  responder_summary = none;
  bundle = missing;
}

-- The directories by their paths, and how many writes the disk takes before one fails.
pub record RunStore : Type 0 where
  pub runs : Dict RunDir
  pub room : ℕ

-- `resolve` of a root and a run id, `join` of a directory and bundle.json, and the text of a
-- bundle.
pub record BundlePlatform : Type 0 where
  pub resolve : String → String → String
  pub bundle_path : String → String
  pub bundle_text : Bundle → String

pub record WrittenBundle : Type 0 where
  pub run_id : String
  pub dir : String
  pub bundle_path : String
  pub proof_token : String
  pub complete : Bool

pub data WriteFailure : Type 0 where
  not_written : WriteFailure

abbrev pub StoreAct : Type 0 → Type 0
StoreAct A = Action RunStore WriteFailure A

unfoldable pub dir_at : RunStore → String → RunDir
dir_at s dir = or_else (get s.runs dir) empty_dir

-- `writeAtomic` of a file in a directory; a write that fails leaves the file as it was.
unfoldable pub write_atomic : String → (RunDir → RunDir) → StoreAct (Unit {0})
write_atomic dir change s = elim s.room [
  | zero ↦ (thrown not_written, s)
  | suc n ↦ (ok tt, record { runs = put s.runs dir (change (dir_at s dir)); room = n })
]

abbrev pub artifact_filenames : List String
artifact_filenames =
    "result.json" ∷ "trace.jsonl" ∷ "provider-health.json" ∷ "evidence-manifest.json"
    ∷ "responder-summary.json" ∷ []

abbrev pub is_done : Completion → Bool
is_done done = true
is_done _ = false

abbrev pub verified_token : String → String
verified_token run_id = "SWARM-VERIFIED:" ⊕ run_id

unfoldable pub proof_token : RunBundleInput → String
proof_token input = elim input.completion.completion [
  | done ↦ verified_token input.run_id
  | _ ↦ "SWARM-REJECTED:" ⊕ input.run_id
]

unfoldable pub bundle_of : RunBundleInput → Bundle
bundle_of input = record {
  schema_version = 1;
  run_id = input.run_id;
  parent_task_id = input.parent_task_id;
  policy = input.policy;
  completion = input.completion;
  responders_summary_ref = "responder-summary.json";
  provider_health = input.provider_health;
  evidence_tokens = input.evidence_tokens;
  evaluation = input.evaluation;
  promotion = input.promotion;
  proof = proof_token input;
  final_reason = input.completion.reason;
  started_at = input.started_at;
  completed_at = input.completed_at;
  provenance = input.provenance;
  complete = true;
  artifacts = artifact_filenames;
}

-- The five artifacts, in their order.
unfoldable pub write_artifacts : String → RunBundleInput → StoreAct (Unit {0})
write_artifacts dir input = do
  write_atomic dir (λ d. record d { result = some input.result })
  write_atomic dir (λ d. record d { trace = some input.trace })
  write_atomic dir (λ d. record d { provider_health = some input.provider_health })
  write_atomic dir
      (λ d. record d { evidence_manifest = some (input.evidence_tokens, artifact_filenames) })
  write_atomic dir (λ d. record d { responder_summary = some input.responders })

module _ ⦃bp : BundlePlatform⦄ where
  abbrev pub bundle_root : Option String → String
  bundle_root root = or_else root "state/swarm-runs"

  abbrev pub run_dir : Option String → String → String
  run_dir root run_id = bp.resolve (bundle_root root) run_id

  abbrev pub written_of : Option String → RunBundleInput → WrittenBundle
  written_of root input = record {
    run_id = input.run_id;
    dir = run_dir root input.run_id;
    bundle_path = bp.bundle_path (run_dir root input.run_id);
    proof_token = proof_token input;
    complete = true;
  }

  -- `writeRunBundle`; the directory is made by the first write.
  unfoldable pub write_run_bundle : Option String → RunBundleInput → StoreAct WrittenBundle
  write_run_bundle root input = do
    let dir = run_dir root input.run_id
    write_atomic dir (λ d. d)
    write_artifacts dir input
    write_atomic dir (λ d. record d { bundle = json (bundle_of input) })
    pure (written_of root input)

  abbrev pub complete_bundle : BundleFile → Option Bundle
  complete_bundle missing = none
  complete_bundle not_json = none
  complete_bundle (json b) = elim b.complete [ true ↦ some b | false ↦ none ]

  unfoldable pub read_bundle : Option String → String → RunStore → Option Bundle
  read_bundle root run_id s = complete_bundle (dir_at s (run_dir root run_id)).bundle
