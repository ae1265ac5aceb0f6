-- ===== src/Hands/Assist/Capability.antt =====
-- src/hands/assist-approval-port.ts: the approval of a pack at a terminal. Two symbols are the same
-- where their identities are.
use atlas_cli.Prelude.{
  ℕ, ◌+◌, String, Bool, true, false, not, ◌&&◌, Option, none, some, List, [], ◌∷◌, if◌then◌else◌,
  includes, ◌==◌, ℕ_eq, string_eq, trim,
}
use atlas_cli.Hands.Assist.Pack.{ApprovedAnswerPack, short_hash}

-- A value that is handed in as a capability: a symbol, with its identity and its description, or
-- something else.
pub data Capability : Type 0 where
  symbol : ℕ → String → Capability
  no_symbol : Capability

-- The symbols that have been consumed, and the identity of the next one that is made.
pub record Approvals : Type 0 where
  pub consumed : List ℕ
  pub next : ℕ

unfoldable pub is_valid_capability : Capability → Approvals → Bool
is_valid_capability no_symbol s = false
is_valid_capability (symbol id description) s =
    if includes s.consumed id then false else description == "assist-approval"

unfoldable pub mint_capability : Approvals → Capability × Approvals
mint_capability s = (symbol s.next "assist-approval", record s { next = s.next + 1 })

abbrev pub add_consumed : Capability → Approvals → Approvals
add_consumed no_symbol s = s
add_consumed (symbol id description) s = record s { consumed = id ∷ s.consumed }

unfoldable pub consume_capability : Capability → Approvals → Bool × Approvals
consume_capability c s =
    if not (is_valid_capability c s) then (false, s) else (true, add_consumed c s)

pub data ApprovalResult : Type 0 where
  approved : Capability → ApprovalResult
  no_tty timed_out wrong_hash : ApprovalResult

abbrev pub units_eq : List ℕ → List ℕ → Bool
units_eq [] [] = true
units_eq (c ∷ cs) (d ∷ ds) = c == d && units_eq cs ds
units_eq _ _ = false

abbrev granted : Capability × Approvals → ApprovalResult × Approvals
granted (c, s) = (approved c, s)

-- `requestApproval`: whether the input is a terminal, and the line that is typed in time, if any
unfoldable pub request_approval :
    ApprovedAnswerPack → Bool → Option (List ℕ) → Approvals → ApprovalResult × Approvals
request_approval p tty line s = if not tty then (no_tty, s) else elim line [
  | none ↦ (timed_out, s)
  | some typed ↦
      if units_eq (trim typed) (short_hash p.pack_hash)
      then granted (mint_capability s)
      else (wrong_hash, s)
]
