-- ===== src/Learning/Claims/Lifecycle.antt =====
-- One claim of src/learning/claim-store.ts from its begin to its end, and the token of an
-- operation: its owner and the generation that `beginOperation` returned.
use mathlib.Core.Option.{some-injective}
use text.Mathlib.TextEquality.{eq_iff}
use atlas_cli.Prelude.{
  ℕ, suc, ◌+◌, ◌<◌, String, Option-cases, none, some, [], ◌==◌, ℕ_eq, string_eq, ◌≡◌, ◌≢◌, refl,
  sym, ap, subst, ◌∙◌, arith, inl, inr, if◌then◌else◌,
}
use atlas_cli.Prelude.Dict.{get, put, get-put_self}
use atlas_cli.Learning.Claims.{
  begin_plan, begin_operation, begin_processing, begin_failed, guarded_plan, guarded_operation,
  complete_operation, fail_operation, read_proof, completed_claim, read_claim, commit_intent,
  create_claim, cas_claim, hash_learning_request, build_processing_claim,
}
use atlas_cli.Learning.Contract.{
  processing, state_Eq, LearningRequest, LearningOperationClaim, LearningProofBundle, Files, ok,
  proceed, done, conflict, Platform, sanitize_file_key, receipt_from_proof,
}
use atlas_cli.Learning.Claims.Interleaving.{System, Steps, Steps-IsSound, Steps-IsKnown}

-- What holds where `completeOperation` or `failOperation` has answered `ok`.
record IsDone (key owner : String) (g : ℕ) (next : LearningOperationClaim → LearningOperationClaim)
    (files files' : Files) : Type 0 where
  claim : LearningOperationClaim
  there : read_claim key files ≡ some claim
  owned : claim.owner ≡ owner
  current : claim.generation ≡ g
  running : claim.state ≡ processing
  result : files' ≡ put files (sanitize_file_key key) (record (next claim) { generation = g + 1 })

guarded_operation-ok :
    (key owner : String) (g : ℕ) (next : LearningOperationClaim → LearningOperationClaim)
    (files files' : Files)
    → guarded_operation key owner g next files ≡ (ok, files')
    → IsDone key owner g next files files'
unfolding guarded_operation guarded_plan read_claim commit_intent cas_claim
guarded_operation-ok key owner g next files files' e =
    elim (Option-cases (get files (sanitize_file_key key))) [
      | inl absent ↦ absurd (ground arith)
      | inr (c, there) ↦ record {
        claim = c;
        there = there;
        owned = ground (arith, eq_iff c.owner owner);
        current = ground arith;
        running = ground arith;
        result = ground arith;
      }
    ]

-- A token whose generation the file has passed is refused.
past_token :
    (key owner : String) (g : ℕ) (next : LearningOperationClaim → LearningOperationClaim)
    (files : Files) (c : LearningOperationClaim)
    → read_claim key files ≡ some c
    → g < c.generation
    → (guarded_operation key owner g next files).0 ≢ ok
past_token key owner g next files c there past e =
    let d =
      guarded_operation-ok key owner g next files (guarded_operation key owner g next files).1
        (λ i. (e i, (guarded_operation key owner g next files).1)) in
    let same : d.claim ≡ c = some-injective _ _ (sym d.there ∙ there) in
    absurd (omega (arith, d.current, past, ap (λ x. x.generation) same))

module _ ⦃pf : Platform⦄ where
  -- From a directory on which no operation is under way: once the file of a key has passed the
  -- generation of a token, `completeOperation` and `failOperation` with that token never answer
  -- `ok` again, whoever calls them and whatever other operations did meanwhile.
  pub token_refused :
      (files : Files) (s t : System) (key owner : String) (g : ℕ) (c : LearningOperationClaim)
      (proof : LearningProofBundle) (reason request_id : String) (now : ℕ)
      → Steps (record { files = files; pending = [] }) s
      → Steps s t
      → read_claim key s.files ≡ some c
      → g < c.generation
      → ((complete_operation key owner g proof now t.files).0 ≢ ok)
        × ((fail_operation key owner g reason request_id now t.files).0 ≢ ok)
  unfolding complete_operation fail_operation read_claim
  token_refused files s t key owner g c proof reason request_id now before after there past =
      let (d, there', side) =
        Steps-IsKnown s t (sanitize_file_key key) c
          (Steps-IsSound (record { files = files; pending = [] }) s tt before) after there c refl in
      let past' : g < d.generation = elim side [
        | inl same ↦ subst (λ x. g < x.generation) same past
        | inr less ↦ omega (arith, past, less)
      ] in
      (
        past_token key owner g _ t.files d there' past',
        past_token key owner g _ t.files d there' past',
      )

  -- A completion that answered `ok` has stored its proof, and left nothing to be done twice: every
  -- later begin of that key, by any owner at any time, returns the stored proof where the request
  -- hashes as the completed one did, and a conflict otherwise, and writes nothing.
  pub completed-replay :
      (req : LearningRequest) (c : LearningOperationClaim) (owner other : String)
      (g rounds now later : ℕ) (proof : LearningProofBundle) (files files' : Files)
      → read_claim req.idempotency_key files ≡ some c
      → complete_operation req.idempotency_key owner g proof now files ≡ (ok, files')
      → (read_proof req.idempotency_key files' ≡ some proof)
        × (begin_operation (suc rounds) req other later files' ≡ (
          if c.request_hash == hash_learning_request req
              then some (done proof (receipt_from_proof proof))
              else some conflict,
          files',
        ))
  unfolding complete_operation read_proof begin_operation begin_plan read_claim
  completed-replay req c owner other g rounds now later proof files files' there e =
      let key = req.idempotency_key in
      let d = guarded_operation-ok key owner g (completed_claim proof now) files files' e in
      let stored : get files' (sanitize_file_key key)
          ≡ some (record (completed_claim proof now d.claim) { generation = g + 1 }) =
        ap (λ f. get f (sanitize_file_key key)) d.result ∙ get-put_self files _ _ in
      let same : d.claim.request_hash ≡ c.request_hash =
        ap (λ (x : LearningOperationClaim). x.request_hash)
          (some-injective _ _ (sym d.there ∙ there)) in
      (ground (arith, stored), ground (arith, stored, same))

-- The caller of `beginOperation` holds the claim.
pub record IsHeld (key owner : String) (c : LearningOperationClaim) (g : ℕ) (files : Files)
    : Type 0 where
  pub there : read_claim key files ≡ some c
  pub owned : c.owner ≡ owner
  pub current : c.generation ≡ g
  pub running : c.state ≡ processing

module _ ⦃pf : Platform⦄ where
  -- What a proceeding begin has written.
  record IsBegun (key owner : String) (c : LearningOperationClaim) (g : ℕ) (files files' : Files)
      : Type 0 where
    result : files' ≡ put files (sanitize_file_key key) c
    owned : c.owner ≡ owner
    current : c.generation ≡ g
    running : c.state ≡ processing

  begun :
      (rounds : ℕ) (req : LearningRequest) (owner : String) (now : ℕ) (files files' : Files)
      (c : LearningOperationClaim) (g : ℕ)
      → begin_operation (suc rounds) req owner now files ≡ (some (proceed c g), files')
      → IsBegun req.idempotency_key owner c g files files'
  unfolding begin_operation begin_plan begin_processing begin_failed build_processing_claim
      read_claim commit_intent create_claim cas_claim
  begun rounds req owner now files files' c g e =
      elim (Option-cases (get files (sanitize_file_key req.idempotency_key))) [
        | inl absent ↦ record {
          result = ground arith;
          owned = ground arith;
          current = ground arith;
          running = ground arith;
        }
        | inr (old, there) ↦ record {
          result = ground arith;
          owned = ground (arith, eq_iff old.owner owner);
          current = ground arith;
          running = ground arith;
        }
      ]

  -- Where no other process writes between its read and its write, `beginOperation` answers in its
  -- first round, whatever the file of the key holds.
  pub begin_answers :
      (rounds : ℕ) (req : LearningRequest) (owner : String) (now : ℕ) (files : Files)
      → (begin_operation (suc rounds) req owner now files).0 ≢ none
  unfolding begin_operation begin_plan begin_processing begin_failed build_processing_claim
      read_claim commit_intent create_claim cas_claim
  begin_answers rounds req owner now files e =
      elim (Option-cases (get files (sanitize_file_key req.idempotency_key))) [
        | inl absent ↦ ground arith
        | inr (old, there) ↦ ground arith
      ]

  -- Where no other process writes between the two, a begin that lets its caller proceed is followed
  -- by a completion that succeeds: with the owner and the generation that the begin returned it
  -- answers `ok`, and the proof is read back.
  pub begin_complete :
      (rounds : ℕ) (req : LearningRequest) (owner : String) (now later : ℕ) (files files' : Files)
      (c : LearningOperationClaim) (g : ℕ) (proof : LearningProofBundle)
      → begin_operation (suc rounds) req owner now files ≡ (some (proceed c g), files')
      → ((complete_operation req.idempotency_key owner g proof later files').0 ≡ ok)
        × (read_proof req.idempotency_key
              (complete_operation req.idempotency_key owner g proof later files').1
            ≡ some proof)
  unfolding complete_operation guarded_operation guarded_plan read_claim commit_intent cas_claim
      read_proof
  begin_complete rounds req owner now later files files' c g proof e =
      let b = begun rounds req owner now files files' c g e in
      let path = sanitize_file_key req.idempotency_key in
      let there : get files' path ≡ some c =
        ap (λ f. get f path) b.result ∙ get-put_self files path c in
      let updated : LearningOperationClaim = record (completed_claim proof later c) {
        generation = g + 1;
      } in
      let written : complete_operation req.idempotency_key owner g proof later files'
          ≡ (ok, put files' path updated) =
        ground (arith, there, b.owned, b.current, b.running, eq_iff c.owner owner) in
      let stored : get (put files' path updated) path ≡ some updated =
        get-put_self files' path updated in
      let read : read_proof req.idempotency_key (put files' path updated) ≡ some proof =
        ground (arith, stored) in
      (ap (λ x. x.0) written, ap (λ x. read_proof req.idempotency_key x.1) written ∙ read)
