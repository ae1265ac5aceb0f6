-- ===== src/Learning/Claims/Interleaving.antt =====
-- Operations of several processes on one directory of claims (src/learning/claim-store.ts). The
-- read of an operation and its write are two steps, and any other operation's steps may come
-- between them. A write is one step, since `withClaimFileLock` keeps the other writers out.
use text.Mathlib.TextEquality.{eq_iff}
use mathlib.Core.Option.{some-injective}
use atlas_cli.Prelude.{
  ℕ, ◌<◌, ◌⊎◌, String, true, false, Option, Bool-cases, none, some, List, [], ◌∷◌, ◌++◌, ◌==◌,
  string_eq, ◌≡◌, refl, sym, subst, ◌∙◌, arith, inl, inr, All, All-map,
}
use atlas_cli.Prelude.Dict.{get, put, get-put}
use atlas_cli.Learning.Claims.{
  Intent, create, cas, commit, begin_plan, guarded_plan, completed_claim, failed_claim, read_claim,
  commit_intent,
}
use atlas_cli.Learning.Contract.{
  LearningRequest, LearningOperationClaim, LearningProofBundle, Files, Platform, sanitize_file_key,
}
use atlas_cli.Learning.Claims.Plans.{
  sealed, IsPlanned, PlannedBy, begin_plan-Planned, guarded_plan-Planned, IsAllowed, Committed,
  commit_intent-Committed,
}

-- An operation that has read, and is going to write.
pub record Pending : Type 0 where
  pub key : String
  pub from : Option LearningOperationClaim
  pub intent : Intent

pub record System : Type 0 where
  pub files : Files
  pub pending : List Pending

module _ ⦃pf : Platform⦄ where
  -- What a process may plan: a begin, a completion or a failure.
  pub data Plans (key : String) (from : Option LearningOperationClaim) (i : Intent) : Type 0 where
    to_begin :
        (req : LearningRequest) (owner : String) (now : ℕ)
        → req.idempotency_key ≡ key
        → begin_plan req owner now from ≡ commit i
        → Plans key from i
    to_complete :
        (owner : String) (generation : ℕ) (proof : LearningProofBundle) (now : ℕ)
        → guarded_plan owner generation (completed_claim proof now) from ≡ commit i
        → Plans key from i
    to_fail :
        (owner : String) (generation : ℕ) (reason request_id : String) (now : ℕ)
        → guarded_plan owner generation (failed_claim reason request_id now) from ≡ commit i
        → Plans key from i

  -- An operation reads, or one of those that have read writes. An operation that answers on its
  -- read, or whose write is refused and that reads again, changes nothing but the pending ones.
  pub data Step (s : System) : System → Type 0 where
    read :
        (key : String) (i : Intent)
        → Plans key (read_claim key s.files) i
        → Step s (record s {
          pending = record { key = key; from = read_claim key s.files; intent = i } ∷ s.pending;
        })
    write :
        (before : List Pending) (p : Pending) (after : List Pending)
        → s.pending ≡ before ++ p ∷ after
        → Step s
            (record { files = (commit_intent p.key p.intent s.files).1; pending = before ++ after })
    crash :
        (before : List Pending) (p : Pending) (after : List Pending)
        → s.pending ≡ before ++ p ∷ after
        → Step s (record s { pending = before ++ after })

  pub data Steps (s : System) : System → Type 0 where
    here : Steps s s
    later : {t u : System} → Steps s t → Step t u → Steps s u

-- How a file may change: not at all, or by a text of a greater generation in place of none or of
-- one that is not sealed.
pub data Grows (o : Option LearningOperationClaim) : Option LearningOperationClaim → Type 0 where
  kept : Grows o o
  written :
      (w : LearningOperationClaim)
      → ((c : LearningOperationClaim)
          → o ≡ some c
          → (c.generation < w.generation) × (sealed c ≡ false))
      → Grows o (some w)

-- A pending operation knows the file as it is, or the file's generation has gone past the one read.
abbrev pub IsKnown : Option LearningOperationClaim → Option LearningOperationClaim → Type 0
IsKnown from now =
    (c : LearningOperationClaim)
    → from ≡ some c
    → (current : LearningOperationClaim) × (now ≡ some current)
      × ((c ≡ current) ⊎ (c.generation < current.generation))

pub record IsCoherent (files : Files) (p : Pending) : Type 0 where
  pub planned : IsPlanned p.key p.from p.intent
  pub known : IsKnown p.from (read_claim p.key files)

abbrev pub IsSound : System → Type 0
IsSound s = All (IsCoherent s.files) s.pending

Grows-IsKnown :
    (from o o' : Option LearningOperationClaim) → Grows o o' → IsKnown from o → IsKnown from o'
Grows-IsKnown from o _ kept k = k
Grows-IsKnown from o _ (written w g) k = λ c e.
    let (current, e', side) = k c e in
    let (past, unsealed) = g current e' in
    (
      w,
      refl,
      inr (elim side [
        | inl same ↦ subst (λ x. x.generation < w.generation) (sym same) past
        | inr less ↦ omega (arith, less, past)
      ]),
    )

put-Grows :
    (files : Files) (path q : String) (w : LearningOperationClaim)
    → Grows (get files path) (some w)
    → Grows (get files q) (get (put files path w) q)
put-Grows files path q w g = elim (Bool-cases (path == q)) [
  | inl same ↦
      subst (λ o. Grows (get files q) o) (sym (get-put files path q w ∙ rw same refl))
        (subst (λ x. Grows (get files x) (some w)) ((eq_iff path q).0 same) g)
  | inr other ↦
      subst (λ o. Grows (get files q) o) (sym (get-put files path q w ∙ rw other refl)) kept
]

-- A write on a generation is on the very claim that was read.
claim_read :
    (c current : LearningOperationClaim)
    → c.generation ≡ current.generation
    → (c ≡ current) ⊎ (c.generation < current.generation)
    → c ≡ current
claim_read c current e (inl same) = same
claim_read c current e (inr less) = absurd (omega (arith, e, less))

allowed-Grows :
    (files : Files) (key : String) (from : Option LearningOperationClaim) (i : Intent)
    (w : LearningOperationClaim)
    → IsPlanned key from i
    → IsKnown from (get files (sanitize_file_key key))
    → IsAllowed (sanitize_file_key key) i files w
    → Grows (get files (sanitize_file_key key)) (some w)
allowed-Grows files key from (create c) w planned known (absent, same) =
    written w (λ d e. absurd (cc (sym absent ∙ e)))
allowed-Grows files key from (cas expected next) w (c, f, g, open_claim) known
      (current, there, h, made) =
    let (d, there', side) = known c f in
    let d_is : d ≡ current = some-injective _ _ (sym there' ∙ there) in
    let c_is : c ≡ current =
      claim_read c current (g ∙ sym h)
        (subst (λ x. (c ≡ x) ⊎ (c.generation < x.generation)) d_is side) in
    written w λ e e_is.
      let at : current ≡ e = some-injective _ _ (sym there ∙ e_is) in
      (
        subst (λ x. x.generation < w.generation) at (rw (made, h) (omega arith)),
        subst (λ x. sealed x ≡ false) (c_is ∙ at) open_claim,
      )

pub write-Grows :
    (files : Files) (p : Pending) (q : String)
    → IsCoherent files p
    → Grows (get files q) (get (commit_intent p.key p.intent files).1 q)
unfolding read_claim
write-Grows files p q h =
    by_result (commit_intent p.key p.intent files)
      (commit_intent-Committed p.key p.from p.intent files h.planned)
  where
    by_result :
        (x : Option LearningOperationClaim × Files)
        → Committed p.key p.intent files x
        → Grows (get files q) (get x.1 q)
    by_result (none, files') same = subst (λ f. Grows (get files q) (get f q)) (sym same) kept
    by_result (some w, files') done =
        subst (λ f. Grows (get files q) (get f q)) (sym done.changed)
          (put-Grows files (sanitize_file_key p.key) q w
            (allowed-Grows files p.key p.from p.intent w h.planned h.known done.allowed))

-- Every write keeps what the other operations know.
after-IsCoherent :
    (files : Files) (p : Pending) (rest : List Pending)
    → IsCoherent files p
    → All (IsCoherent files) rest
    → All (IsCoherent (commit_intent p.key p.intent files).1) rest
unfolding read_claim
after-IsCoherent files p rest h =
    All-map (IsCoherent files) (IsCoherent (commit_intent p.key p.intent files).1)
      (λ r k. record {
        planned = k.planned;
        known = Grows-IsKnown r.from _ _ (write-Grows files p (sanitize_file_key r.key) h) k.known;
      })
      rest

All-split :
    (P : Pending → Type 0) (before : List Pending) (p : Pending) (after : List Pending)
    → All P (before ++ p ∷ after)
    → P p × All P (before ++ after)
All-split P [] p after h = h
All-split P (b ∷ before) p after h =
    let (mine, rest) = All-split P before p after h.1 in (mine, (h.0, rest))

module _ ⦃pf : Platform⦄ where
  Plans-IsPlanned :
      (key : String) (from : Option LearningOperationClaim) (i : Intent)
      → Plans key from i
      → IsPlanned key from i
  Plans-IsPlanned key from i (to_begin req owner now k e) =
      subst (λ x. IsPlanned x from i) k
        (subst (PlannedBy req.idempotency_key from) e
          (begin_plan-Planned req owner now from).by_claim)
  Plans-IsPlanned key from i (to_complete owner g proof now e) =
      subst (PlannedBy key from) e (guarded_plan-Planned key owner g _ from).by_claim
  Plans-IsPlanned key from i (to_fail owner g reason request_id now e) =
      subst (PlannedBy key from) e (guarded_plan-Planned key owner g _ from).by_claim

  Step-IsSound : (s t : System) → IsSound s → Step s t → IsSound t
  Step-IsSound s _ h (read key i plans) =
      (record { planned = Plans-IsPlanned key _ i plans; known = λ c e. (c, e, inl refl) }, h)
  Step-IsSound s _ h (write before p after e) =
      let (mine, rest) =
        All-split (IsCoherent s.files) before p after (subst (All (IsCoherent s.files)) e h) in
      after-IsCoherent s.files p (before ++ after) mine rest
  Step-IsSound s _ h (crash before p after e) =
      (All-split (IsCoherent s.files) before p after (subst (All (IsCoherent s.files)) e h)).1

  Step-Grows :
      (s t : System) (q : String) → IsSound s → Step s t → Grows (get s.files q) (get t.files q)
  Step-Grows s _ q h (read key i plans) = kept
  Step-Grows s _ q h (write before p after e) =
      write-Grows s.files p q
        (All-split (IsCoherent s.files) before p after (subst (All (IsCoherent s.files)) e h)).0
  Step-Grows s _ q h (crash before p after e) = kept

  pub Steps-IsSound : (s t : System) → IsSound s → Steps s t → IsSound t
  Steps-IsSound s _ h here = h
  Steps-IsSound s u h (later {t} steps step) = Step-IsSound t u (Steps-IsSound s t h steps) step

  Grows-sealed :
      (o o' : Option LearningOperationClaim) (c : LearningOperationClaim)
      → Grows o o'
      → o ≡ some c
      → sealed c ≡ true
      → o' ≡ some c
  Grows-sealed o _ c kept e h = e
  Grows-sealed o _ c (written w g) e h = absurd (cc (sym (g c e).1 ∙ h))

  -- Whatever the other operations do, a claim that is there stays, or its generation grows.
  pub Steps-IsKnown :
      (s t : System) (q : String) (c : LearningOperationClaim)
      → IsSound s
      → Steps s t
      → get s.files q ≡ some c
      → IsKnown (some c) (get t.files q)
  Steps-IsKnown s _ q c h here e = λ d same. (c, e, inl (sym (some-injective _ _ same)))
  Steps-IsKnown s u q c h (later {t} steps step) e =
      Grows-IsKnown (some c) _ _ (Step-Grows t u q (Steps-IsSound s t h steps) step)
        (Steps-IsKnown s t q c h steps e)

  Steps-sealed :
      (s t : System) (q : String) (c : LearningOperationClaim)
      → IsSound s
      → Steps s t
      → get s.files q ≡ some c
      → sealed c ≡ true
      → get t.files q ≡ some c
  Steps-sealed s _ q c h here e d = e
  Steps-sealed s u q c h (later {t} steps step) e d =
      Grows-sealed _ _ c (Step-Grows t u q (Steps-IsSound s t h steps) step)
        (Steps-sealed s t q c h steps e d) d

  -- From a directory on which no operation is under way: once a claim is completed and has its
  -- proof, no interleaving of reads, writes and crashes changes its file again.
  pub completed_is_final :
      (files : Files) (s t : System) (key : String) (c : LearningOperationClaim)
      → Steps (record { files = files; pending = [] }) s
      → Steps s t
      → read_claim key s.files ≡ some c
      → sealed c ≡ true
      → read_claim key t.files ≡ some c
  unfolding read_claim
  completed_is_final files s t key c before after e d =
      Steps-sealed s t (sanitize_file_key key) c
        (Steps-IsSound (record { files = files; pending = [] }) s tt before) after e d
