-- ===== src/Learning/Tests.antt =====
-- The claims of src/learning at small inputs.
use atlas_cli.Prelude.{◌≡◌, ◌≢◌, refl, none, some, [], ◌∷◌, if◌then◌else◌, ◌==◌, string_eq}
use atlas_cli.Prelude.Dict.{get, put}
use atlas_cli.Learning.Claims.{
  begin_operation, begin_plan, complete_operation, guarded_operation, guarded_plan, read_claim,
  read_proof, commit_intent, create_claim, cas_claim, build_processing_claim, hash_learning_request,
  completed_claim,
}
use atlas_cli.Learning.Contract.{
  Platform, LearningRequest, decide, LearningProofBundle, receipt_completed, LearningOperationClaim,
  Files, proceed, done, conflict, ok, processing, sanitize_file_key, receipt_from_proof,
}
use atlas_cli.Learning.Claims.Interleaving.{System, here, completed_is_final}
use atlas_cli.Learning.Claims.Lifecycle.{completed-replay, begin_answers, begin_complete}

instance abbrev test_platform_Eq : Platform
test_platform_Eq = record { sha256 = λ s. s; canonical = λ k s. s; lease_ms = 60000 }

abbrev request : LearningRequest
request = record { request_id = "r1"; idempotency_key = "k/1"; kind = decide; payload = "p" }

abbrev proof : LearningProofBundle
proof = record {
  request_hash = "p";
  request_id = "r1";
  receipt = record {
    request_id = "r1";
    idempotency_key = "k/1";
    status = receipt_completed;
    updated_at = 7;
    decision_id = none;
    error = none;
  };
  evidence_payload = "{}";
  artifact_hashes = [];
  claimed_at = 5;
  completed_at = 7;
}

abbrev claim : LearningOperationClaim
claim = record {
  idempotency_key = "k/1";
  kind = decide;
  state = processing;
  owner = "a";
  request_hash = "p";
  lease_until = 60005;
  generation = 1;
  attempt = 1;
  created_at = 5;
  updated_at = 5;
  proof = none;
  failure_reason = none;
  retry_metadata = none;
}

abbrev claimed : Files
claimed = ("k_1", claim) ∷ []

abbrev sealed_claim : LearningOperationClaim
sealed_claim = record (completed_claim proof 7 claim) { generation = 2 }

abbrev finished : Files
finished = ("k_1", sealed_claim) ∷ []

abbrev idle : Files → System
idle files = record { files = files; pending = [] }

begin_gives : begin_operation 1 request "a" 5 [] ≡ (some (proceed claim 1), claimed)
unfolding begin_operation begin_plan build_processing_claim hash_learning_request read_claim
    commit_intent create_claim sanitize_file_key get put
begin_gives = refl

complete_gives : complete_operation "k/1" "a" 1 proof 7 claimed ≡ (ok, finished)
unfolding complete_operation guarded_operation guarded_plan read_claim commit_intent cas_claim
    sanitize_file_key get put
complete_gives = refl

there :
    (files : Files) (c : LearningOperationClaim)
    → files ≡ ("k_1", c) ∷ []
    → read_claim "k/1" files ≡ some c
unfolding read_claim sanitize_file_key get
there files c e = rw e refl

completed_is_final_example : read_claim "k/1" finished ≡ some sealed_claim
completed_is_final_example =
    completed_is_final finished (idle finished) (idle finished) "k/1" sealed_claim here here
      (there finished sealed_claim refl) refl

completed-replay_example :
    (read_proof "k/1" finished ≡ some proof)
    × (begin_operation 1 request "b" 9 finished ≡ (
      if claim.request_hash == hash_learning_request request
          then some (done proof (receipt_from_proof proof))
          else some conflict,
      finished,
    ))
completed-replay_example =
    completed-replay request claim "a" "b" 1 0 7 9 proof claimed finished (there claimed claim refl)
      complete_gives

begin_answers_example : (begin_operation 1 request "a" 5 []).0 ≢ none
begin_answers_example = begin_answers 0 request "a" 5 []

begin_complete_example :
    ((complete_operation "k/1" "a" 1 proof 7 claimed).0 ≡ ok)
    × (read_proof "k/1" (complete_operation "k/1" "a" 1 proof 7 claimed).1 ≡ some proof)
begin_complete_example = begin_complete 0 request "a" 5 7 [] claimed claim 1 proof begin_gives
