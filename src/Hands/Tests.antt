-- ===== src/Hands/Tests.antt =====
-- The hands of src/hands at small inputs.
use atlas_cli.Prelude.{◌≡◌, ◌↔◌, ◌⊎◌, refl, true, false, none, some, List, [], ◌∷◌, inl, is_present}
use atlas_cli.Prelude.Regex.{test}
use atlas_cli.Prelude.Action.{thrown}
use atlas_cli.ExecGraph.Contracts.{Runtime}
use atlas_cli.ExecGraph.Ledger.{World, read_graph}
use atlas_cli.ExecGraph.Ledger.Replay.{IsHealthy}
use atlas_cli.ExecGraph.Spec.{Role, Changes}
use atlas_cli.ExecGraph.Sessions.Promises.{IsNewDir-IsHealthy}
use atlas_cli.Hands.Contract
use atlas_cli.Hands.Contract.{Receipt, file_exists, data_mutation, HandSpec, read_only_unattended}
use atlas_cli.Hands.Verifier.{Disk, verify, verify_file_exists, is_protected_path}
use atlas_cli.Hands.Secrets.{has_secret, contains_secret_shape}
use atlas_cli.Hands.Adapter.{HandPlatform, HandFailure, not_json, judge, submit_receipt}
use atlas_cli.Hands.Verdicts.{IsConfirmed, judge-verified_iff, verify-IsConfirmed}
use atlas_cli.Hands.Receipts.{
  HandRequest, assign, submit, hand_session, hand_session_refines, refused_receipt_writes_nothing,
}

instance abbrev hand_runtime_Eq : Runtime
hand_runtime_Eq = record { is_datetime = λ s. true; uuid = λ n. "0f-4a" }

abbrev local_hand : HandSpec
local_hand = record {
  hand_id = "local";
  allowed_actions = "read" ∷ [];
  autonomy = read_only_unattended;
}

instance abbrev hand_platform_Eq : HandPlatform
hand_platform_Eq = record {
  receipt_hash = λ r. "h";
  stringify = λ r. "{}";
  parse = λ s. not_json;
  manifests = ("local", local_hand) ∷ [];
  kind_text = λ k. "kind";
  describe = λ r x. "reason";
  describe_refuter = λ x. "refuter";
}

abbrev disk : Disk
disk = record {
  exists = λ p. some true;
  read = λ p. none;
  object_type = λ p. none;
  run = λ c. none;
}

abbrev receipt : Receipt
receipt = record {
  task_id = "tsk_0f4a";
  hand_id = "local";
  submitted_by = "local";
  kind = file_exists;
  ref = some "docs/a.md";
  command = none;
  expected_substring = none;
  claimed_result = "done";
  artifacts = none;
  actions = none;
  action_results = none;
}

abbrev leaking : Receipt
leaking = record receipt { claimed_result = "token = abcdefgh1" }

leaks_it : has_secret leaking ≡ true
unfolding has_secret contains_secret_shape test is_present
leaks_it = refl

judge-verified_iff_example : ((judge disk disk data_mutation receipt).verified ≡ true) ↔ (
    ((verify disk receipt).verified ≡ true)
    × ((data_mutation ≡ Contract.low) ⊎ ((verify disk receipt).verified ≡ true)))
judge-verified_iff_example = judge-verified_iff disk disk data_mutation receipt

confirmed_receipt : (verify disk receipt).verified ≡ true
unfolding verify verify_file_exists is_protected_path test is_present
confirmed_receipt = refl

verify-IsConfirmed_example : IsConfirmed disk receipt file_exists
verify-IsConfirmed_example = verify-IsConfirmed disk receipt confirmed_receipt

abbrev empty_dir : World
empty_dir = record {
  ledger = [];
  graph = none;
  io = [];
  drawn = 0;
  now = "2026-07-01T00:00:00Z";
  readonly = false;
}

dir-IsHealthy : IsHealthy empty_dir
dir-IsHealthy =
    IsNewDir-IsHealthy empty_dir (record { no_ledger = refl; no_graph = refl; no_faults = refl })

abbrev hand_calls : List HandRequest
hand_calls = assign "tsk_0f4a" "local" "atlas" true ∷ submit "tsk_0f4a" receipt ∷ []

hand_session_refines_example :
    IsHealthy (hand_session hand_calls empty_dir)
    × Changes Role.verifier (read_graph empty_dir) (read_graph (hand_session hand_calls empty_dir))
hand_session_refines_example = hand_session_refines hand_calls empty_dir dir-IsHealthy

refused_receipt_writes_nothing_example :
    (e : HandFailure) × (submit_receipt "tsk_0f4a" leaking empty_dir ≡ (thrown e, empty_dir))
refused_receipt_writes_nothing_example =
    refused_receipt_writes_nothing "tsk_0f4a" leaking empty_dir (inl leaks_it)
