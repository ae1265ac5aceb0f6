-- ===== src/Learning/Claims/Plans.antt =====
-- What an operation of src/learning/claim-store.ts plans on a claim, and what its write does.
use atlas_cli.Prelude.{
  ℕ, ◌+◌, String, Bool, true, false, not, ◌&&◌, Option, Option-cases, Bool-cases, none, some, ◌==◌,
  ℕ_eq, is_some, ◌≡◌, refl, sym, ap, subst, arith, inl, inr, if◌then◌else◌, string_eq, nat_eq_iff,
}
use atlas_cli.Prelude.Dict.{get, put}
use atlas_cli.Learning.Claims.{
  hash_learning_request, Intent, create, cas, Plan, answer, commit, begin_plan, begin_processing,
  begin_failed, guarded_plan, commit_intent, create_claim, cas_claim,
}
use atlas_cli.Learning.Contract.{
  ClaimState, processing, completed, failed, state_Eq, LearningProofBundle, in_flight, done,
  receipt_from_proof, LearningRequest, LearningOperationClaim, Files, Platform, sanitize_file_key,
  lease_expired,
}

-- A claim with its proof: the operation is done.
abbrev pub sealed : LearningOperationClaim → Bool
sealed c = c.state == completed && is_some c.proof

-- What an operation plans to write follows from the claim that it has read.
abbrev pub IsPlanned : String → Option LearningOperationClaim → Intent → Type 0
IsPlanned key from (create c) = (from ≡ none) × (c.idempotency_key ≡ key)
IsPlanned key from (cas expected next) =
    (c : LearningOperationClaim) × (from ≡ some c) × (c.generation ≡ expected) × (sealed c ≡ false)

abbrev pub PlannedBy : {A : Type 0} → String → Option LearningOperationClaim → Plan A → Type 0
PlannedBy key from (answer a) = Unit
PlannedBy key from (commit i) = IsPlanned key from i

pub record Planned {A : Type 0} (key : String) (from : Option LearningOperationClaim) (p : Plan A)
    : Type 0 where
  pub by_claim : PlannedBy key from p

module _ {A : Type 0} {key : String} {from : Option LearningOperationClaim} where
  Planned-answer : (a : A) → Planned key from (answer a)
  Planned-answer a = record { by_claim = tt }

  Planned-commit : (i : Intent) → IsPlanned key from i → Planned {A = A} key from (commit i)
  Planned-commit i h = record { by_claim = h }

  Planned-cas :
      (c : LearningOperationClaim) (expected : ℕ) (next : LearningOperationClaim)
      → from ≡ some c
      → c.generation ≡ expected
      → sealed c ≡ false
      → Planned {A = A} key from (commit (cas expected next))
  Planned-cas c expected next f g s = record { by_claim = (c, f, g, s) }

  Planned-if :
      (b : Bool) (p q : Plan A)
      → (b ≡ true → Planned key from p)
      → (b ≡ false → Planned key from q)
      → Planned key from (if b then p else q)
  Planned-if true p q hp hq = hp refl
  Planned-if false p q hp hq = hq refl

-- A claim in another state than `completed` is not sealed.
open_state : (c : LearningOperationClaim) → (c.state == completed) ≡ false → sealed c ≡ false
open_state c h = rw h refl

module _ ⦃pf : Platform⦄ where
  begin_processing-Planned :
      (req : LearningRequest) (owner : String) (now : ℕ) (c : LearningOperationClaim)
      → sealed c ≡ false
      → Planned req.idempotency_key (some c) (begin_processing req owner now c)
  unfolding begin_processing
  begin_processing-Planned req owner now c h =
      Planned-if (c.owner == owner) _ _ (λ mine. Planned-cas c _ _ refl refl h)
        λ other.
          Planned-if (not (lease_expired c now)) _ _ (λ live. Planned-answer _)
            λ expired. Planned-cas c _ _ refl refl h

  begin_completed-Planned :
      (req : LearningRequest) (c : LearningOperationClaim) (o : Option LearningProofBundle)
      → Planned req.idempotency_key (some c) (elim o [
        | none ↦ answer (in_flight c)
        | some proof ↦ answer (done proof (receipt_from_proof proof))
      ])
  begin_completed-Planned req c none = Planned-answer _
  begin_completed-Planned req c (some proof) = Planned-answer _

  pub begin_plan-Planned :
      (req : LearningRequest) (owner : String) (now : ℕ) (from : Option LearningOperationClaim)
      → Planned req.idempotency_key from (begin_plan req owner now from)
  unfolding begin_plan begin_failed
  begin_plan-Planned req owner now none = Planned-commit _ (refl, refl)
  begin_plan-Planned req owner now (some c) =
      Planned-if (not (c.request_hash == hash_learning_request req)) _ _
        (λ reused. Planned-answer _) (λ same. by_state c.state refl)
    where
      by_state :
          (s : ClaimState)
          → c.state ≡ s
          → Planned req.idempotency_key (some c) (elim s [
            | processing ↦ begin_processing req owner now c
            | completed ↦ elim c.proof [
              | none ↦ answer (in_flight c)
              | some proof ↦ answer (done proof (receipt_from_proof proof))
            ]
            | failed ↦ begin_failed req owner now c
          ])
      by_state processing e = begin_processing-Planned req owner now c (open_state c (rw e refl))
      by_state completed e = begin_completed-Planned req c c.proof
      by_state failed e = Planned-cas c _ _ refl refl (open_state c (rw e refl))

pub guarded_plan-Planned :
    (key owner : String) (g : ℕ) (next : LearningOperationClaim → LearningOperationClaim)
    (from : Option LearningOperationClaim)
    → Planned key from (guarded_plan owner g next from)
unfolding guarded_plan
guarded_plan-Planned key owner g next none = Planned-answer _
guarded_plan-Planned key owner g next (some c) =
    Planned-if (not (c.owner == owner)) _ _ (λ stale. Planned-answer _)
      λ mine.
        Planned-if (not (c.generation == g)) _ _ (λ lost. Planned-answer _)
          λ current.
            Planned-if (not (c.state == processing)) _ _ (λ lost. Planned-answer _)
              λ running. Planned-cas c _ _ refl (ground arith) (open_state c (ground arith))

-- A new file where there was none, or one whose generation is the one that was read.
abbrev pub IsAllowed : String → Intent → Files → LearningOperationClaim → Type 0
IsAllowed path (create c) files written = (get files path ≡ none) × (written ≡ c)
IsAllowed path (cas expected next) files written =
    (current : LearningOperationClaim) × (get files path ≡ some current)
    × (current.generation ≡ expected)
    × (written ≡ record next { generation = expected + 1 })

-- What a write does: it changes one file.
pub record IsWrite (key : String) (i : Intent) (files files' : Files)
    (written : LearningOperationClaim) : Type 0 where
  pub changed : files' ≡ put files (sanitize_file_key key) written
  pub allowed : IsAllowed (sanitize_file_key key) i files written

abbrev pub Committed : String → Intent → Files → Option LearningOperationClaim × Files → Type 0
Committed key i files (none, files') = files' ≡ files
Committed key i files (some written, files') = IsWrite key i files files' written

pub commit_intent-Committed :
    (key : String) (from : Option LearningOperationClaim) (i : Intent) (files : Files)
    → IsPlanned key from i
    → Committed key i files (commit_intent key i files)
unfolding commit_intent create_claim cas_claim
commit_intent-Committed key from (create c) files h =
    elim (Option-cases (get files (sanitize_file_key c.idempotency_key))) [
      | inl e ↦ subst (Committed key (create c) files) (sym (made e)) (record {
        changed = ap (λ k. put files (sanitize_file_key k) c) h.1;
        allowed = (subst (λ k. get files (sanitize_file_key k) ≡ none) h.1 e, refl);
      })
      | inr (there, e) ↦ subst (Committed key (create c) files) (sym (kept there e)) refl
    ]
  where
    made :
        get files (sanitize_file_key c.idempotency_key) ≡ none
        → commit_intent key (create c) files
          ≡ (some c, put files (sanitize_file_key c.idempotency_key) c)
    made e = ground arith

    kept :
        (there : LearningOperationClaim)
        → get files (sanitize_file_key c.idempotency_key) ≡ some there
        → commit_intent key (create c) files ≡ (none, files)
    kept there e = ground arith
commit_intent-Committed key from (cas expected next) files h =
    elim (Option-cases (get files path)) [
      | inl e ↦ subst (Committed key (cas expected next) files) (sym (missing e)) refl
      | inr (current, e) ↦ elim (Bool-cases (current.generation == expected)) [
        | inl same ↦
            subst (Committed key (cas expected next) files) (sym (made current e same))
              (record { changed = refl; allowed = (current, e, (nat_eq_iff _ _).0 same, refl) })
        | inr other ↦
            subst (Committed key (cas expected next) files) (sym (kept current e other)) refl
      ]
    ]
  where
    path : String
    path = sanitize_file_key key

    updated : LearningOperationClaim
    updated = record next { generation = expected + 1 }

    missing : get files path ≡ none → commit_intent key (cas expected next) files ≡ (none, files)
    missing e = ground arith

    made :
        (current : LearningOperationClaim)
        → get files path ≡ some current
        → (current.generation == expected) ≡ true
        → commit_intent key (cas expected next) files ≡ (some updated, put files path updated)
    made current e same = ground arith

    kept :
        (current : LearningOperationClaim)
        → get files path ≡ some current
        → (current.generation == expected) ≡ false
        → commit_intent key (cas expected next) files ≡ (none, files)
    kept current e other = ground arith
