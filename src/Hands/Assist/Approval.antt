-- ===== src/Hands/Assist/Approval.antt =====
-- What an approval allows, and how often.
use atlas_cli.Prelude.{
  ℕ, ◌<◌, Bool, true, false, ◌&&◌, ◌||◌, Option, none, some, trim, List, [], ◌∷◌, All, ◌≡◌, ◌⊎◌,
  inl, inr, refl, sym, subst, ap, arith, Bool-cases, includes, ℕ_eq, string_eq,
}
use atlas_cli.Hands.Assist.Pack.{ApprovedAnswerPack, AssistPlatform, short_hash}
use atlas_cli.Hands.Assist.Capability.{
  Capability, symbol, no_symbol, Approvals, is_valid_capability, mint_capability,
  consume_capability, ApprovalResult, approved, request_approval, units_eq,
}
use atlas_cli.Hands.Assist.Session.{
  no_foreground, invalid_capability, RunAssistInput, AssistEnv, AssistRun, stopped_at,
  after_consuming, assist_with_pack, run_supervised_assist,
}

-- A call that reads or changes the approvals.
pub data AssistCall : Type 0 where
  approve : ApprovedAnswerPack → Bool → Option (List ℕ) → AssistCall
  run : RunAssistInput → AssistEnv → AssistCall

-- The run is in a foreground, or is not asked for one.
abbrev pub in_foreground : RunAssistInput → AssistEnv → Bool
in_foreground input env = input.skip_tty_check || env.tty

-- The run stops at a gate before its pack is looked at.
abbrev pub IsTurnedAway : AssistRun → Type 0
IsTurnedAway r = (r ≡ stopped_at no_foreground) ⊎ (r ≡ stopped_at invalid_capability)

module _ ⦃ap : AssistPlatform⦄ where
  abbrev pub serve : AssistCall → Approvals → Approvals
  serve (approve p tty line) s = (request_approval p tty line s).1
  serve (run input env) s = (run_supervised_assist input env s).1

  abbrev pub calls : List AssistCall → Approvals → Approvals
  calls [] s = s
  calls (c ∷ cs) s = calls cs (serve c s)

  consume-spent :
      (c d : Capability) (s : Approvals)
      → is_valid_capability c s ≡ false
      → is_valid_capability c (consume_capability d s).1 ≡ false
  unfolding consume_capability is_valid_capability
  consume-spent no_symbol d s h = refl
  consume-spent (symbol i x) no_symbol s h = h
  consume-spent (symbol i x) (symbol j y) s h = ground (arith, h)

  after_consuming-state :
      (input : RunAssistInput) (env : AssistEnv) (x : Bool × Approvals)
      → (after_consuming input env x).1 ≡ x.1
  after_consuming-state input env (true, s) = refl
  after_consuming-state input env (false, s) = refl

  run-spent :
      (c : Capability) (input : RunAssistInput) (env : AssistEnv) (s : Approvals)
      → is_valid_capability c s ≡ false
      → is_valid_capability c (run_supervised_assist input env s).1 ≡ false
  unfolding run_supervised_assist
  run-spent c input env s h = elim (Bool-cases (in_foreground input env)) [
    | inr headless ↦ ground (arith, h, headless)
    | inl seen ↦ elim (Bool-cases (is_valid_capability input.capability s)) [
      | inr spent ↦ ground (arith, h, seen, spent)
      | inl good ↦
          let left = after_consuming-state input env (consume_capability input.capability s) in
          ground (arith, seen, good, left, consume-spent c input.capability s h)
    ]
  ]

  approve-spent :
      (c : Capability) (p : ApprovedAnswerPack) (tty : Bool) (line : Option (List ℕ))
      (s : Approvals)
      → is_valid_capability c s ≡ false
      → is_valid_capability c (request_approval p tty line s).1 ≡ false
  unfolding request_approval mint_capability is_valid_capability
  approve-spent c p tty line s h = ground (arith, h)

  serve-spent :
      (c : Capability) (call : AssistCall) (s : Approvals)
      → is_valid_capability c s ≡ false
      → is_valid_capability c (serve call s) ≡ false
  serve-spent c (approve p tty line) s h = approve-spent c p tty line s h
  serve-spent c (run input env) s h = run-spent c input env s h

  calls-spent :
      (c : Capability) (cs : List AssistCall) (s : Approvals)
      → is_valid_capability c s ≡ false
      → is_valid_capability c (calls cs s) ≡ false
  calls-spent c [] s h = h
  calls-spent c (call ∷ cs) s h = calls-spent c cs (serve call s) (serve-spent c call s h)

  consume_self :
      (c : Capability) (s : Approvals) → is_valid_capability c (consume_capability c s).1 ≡ false
  unfolding consume_capability is_valid_capability
  consume_self no_symbol s = refl
  consume_self (symbol i x) s = ground arith

  -- A run in a foreground leaves its capability spent.
  foreground-spent :
      (input : RunAssistInput) (env : AssistEnv) (s : Approvals)
      → in_foreground input env ≡ true
      → is_valid_capability input.capability (run_supervised_assist input env s).1 ≡ false
  unfolding run_supervised_assist
  foreground-spent input env s seen = elim (Bool-cases (is_valid_capability input.capability s)) [
    | inr spent ↦ ground (arith, seen, spent)
    | inl good ↦
        let left = after_consuming-state input env (consume_capability input.capability s) in
        ground (arith, seen, good, left, consume_self input.capability s)
  ]

  spent-IsTurnedAway :
      (input : RunAssistInput) (env : AssistEnv) (s : Approvals)
      → is_valid_capability input.capability s ≡ false
      → IsTurnedAway (run_supervised_assist input env s).0
        × ((run_supervised_assist input env s).1 ≡ s)
  unfolding run_supervised_assist
  spent-IsTurnedAway input env s spent = elim (Bool-cases (in_foreground input env)) [
    | inr headless ↦ (inl (ground (arith, headless)), ground (arith, headless))
    | inl seen ↦ (inr (ground (arith, seen, spent)), ground (arith, seen, spent))
  ]

  -- A run in a foreground uses its capability up, whatever it does then: after any further calls, a
  -- run with the same capability is turned away before its pack is looked at and before the driver
  -- is given any action, and changes nothing.
  pub capability_serves_once :
      (input again : RunAssistInput) (env later : AssistEnv) (cs : List AssistCall) (s : Approvals)
      → in_foreground input env ≡ true
      → again.capability ≡ input.capability
      → let between = calls cs (run_supervised_assist input env s).1 in
        IsTurnedAway (run_supervised_assist again later between).0
        × ((run_supervised_assist again later between).1 ≡ between)
  capability_serves_once input again env later cs s seen same =
      let between = calls cs (run_supervised_assist input env s).1 in
      let spent = calls-spent input.capability cs _ (foreground-spent input env s seen) in
      spent-IsTurnedAway again later between
        (subst (λ c. is_valid_capability c between ≡ false) (sym same) spent)

abbrev capability_of : ApprovalResult → Capability
capability_of (approved c) = c
capability_of _ = no_symbol

approved-injective : {c d : Capability} → approved c ≡ approved d → c ≡ d
approved-injective e = ap capability_of e

abbrev pub IsOld : ℕ → ℕ → Type 0
IsOld next id = id < next

fresh : (next : ℕ) (ids : List ℕ) → All (IsOld next) ids → includes ids next ≡ false
fresh next [] h = refl
fresh next (id ∷ ids) h = ground (arith, h.0, fresh next ids h.1)

-- What an approval hands out.
minted :
    (p : ApprovedAnswerPack) (tty : Bool) (line : Option (List ℕ)) (s : Approvals) (c : Capability)
    → (request_approval p tty line s).0 ≡ approved c
    → (symbol s.next "assist-approval" ≡ c)
      × ((request_approval p tty line s).1.consumed ≡ s.consumed)
unfolding request_approval mint_capability
minted p false line s c e = cc
minted p true none s c e = cc
minted p true (some typed) s c e =
    elim (Bool-cases (units_eq (trim typed) (short_hash p.pack_hash))) [
      | inl right ↦ (approved-injective (ground (arith, right, e)), ground (arith, right))
      | inr wrong ↦ absurd (ground (arith, wrong, e))
    ]

module _ ⦃ap : AssistPlatform⦄ where
  pub turned_away :
      (input : RunAssistInput) (env : AssistEnv) (s : Approvals)
      → (in_foreground input env && is_valid_capability input.capability s) ≡ false
      → (run_supervised_assist input env s).0.actions ≡ []
  unfolding run_supervised_assist
  turned_away input env s h = ground (arith, h)

  pub behind_gates :
      (input : RunAssistInput) (env : AssistEnv) (s : Approvals)
      → in_foreground input env ≡ true
      → is_valid_capability input.capability s ≡ true
      → (run_supervised_assist input env s).0 ≡ assist_with_pack input env
  unfolding run_supervised_assist consume_capability
  behind_gates input env s seen good = ground (arith, seen, good)

  -- Where no symbol that is still to be made has been consumed, a run in a foreground with the
  -- capability of an approval passes the gates to its pack, and does with it what it does.
  pub approved_run_goes_ahead :
      (p : ApprovedAnswerPack) (tty : Bool) (line : Option (List ℕ)) (s : Approvals)
      (input : RunAssistInput) (env : AssistEnv)
      → All (IsOld s.next) s.consumed
      → (request_approval p tty line s).0 ≡ approved input.capability
      → in_foreground input env ≡ true
      → (run_supervised_assist input env (request_approval p tty line s).1).0
        ≡ assist_with_pack input env
  unfolding is_valid_capability
  approved_run_goes_ahead p tty line s input env old e seen =
      let (c, same) = minted p tty line s input.capability e in
      let after = (request_approval p tty line s).1 in
      let good : is_valid_capability (symbol s.next "assist-approval") after ≡ true =
        ground (arith, same, fresh s.next s.consumed old) in
      behind_gates input env after seen (subst (λ x. is_valid_capability x after ≡ true) c good)
