-- ===== src/Atlas/NotifyQueue.antt =====
-- src/atlas/notify-queue.ts: the quiet hours, the redaction of secrets, and the queue of
-- notifications in a file. A message is the list of its UTF-16 code units.
use atlas_cli.Prelude.{
  ℕ, zero, suc, ◌+◌, ◌-◌, ◌/◌, ◌%◌, String, Bool, true, false, not, ◌&&◌, ◌||◌, Option, none, some,
  List, [], ◌∷◌, ◌++◌, if◌then◌else◌, ltb, leb, or_else, ◌==◌, string_eq, length, is_empty, ℕ_eq,
}
use atlas_cli.Prelude.Regex.{
  Re, units, derivative, nullable, one, sequence, literal, at_least, times, is_alnum, between,
}
use atlas_cli.Prelude.Action.{Result, ok, thrown}
pub mod Delivery
pub mod Redaction
mod Tests

abbrev pub Units : Type 0
Units = List ℕ

pub data NotifyPriority : Type 0 where
  panic normal : NotifyPriority

pub record QueueEntry : Type 0 where
  pub id : String
  pub kind : String
  pub message : Units
  pub queued_at : String
  pub priority : NotifyPriority

-- The queue file, `none` where it is missing, no JSON or without a list of entries, and the
-- messages that the transport took, the newest last. The entries of the file are those that this
-- code wrote.
pub record QueueWorld : Type 0 where
  pub file : Option (List QueueEntry)
  pub sent : List Units

-- What the disk or the transport answers: it succeeds, or throws an error that may have a message.
pub data Outcome : Type 0 where
  succeeds : Outcome
  fails : Option Units → Outcome

abbrev pub baku_offset_hours : ℕ
baku_offset_hours = 4

-- `now` is in milliseconds since the epoch, and not before it.
unfoldable pub is_quiet_hours : ℕ → Bool
is_quiet_hours now =
    let baku_hour = (now / 3600000 % 24 + baku_offset_hours) % 24 in
    leb 23 baku_hour || ltb baku_hour 8

abbrev pub is_word : ℕ → Bool
is_word c = is_alnum c || c == 95

-- the classes `[a-zA-Z0-9-]`, `[a-zA-Z0-9_-]` and `[a-f0-9]`
abbrev is_dashed : ℕ → Bool
is_dashed c = is_alnum c || c == 45

abbrev is_word_or_dash : ℕ → Bool
is_word_or_dash c = is_word c || c == 45

abbrev is_hex : ℕ → Bool
is_hex c = between 97 102 c || between 48 57 c

-- `SECRET_PATTERNS`, less the `\b` at both ends of each
abbrev pub secret_patterns : List Re
secret_patterns =
    sequence (literal "sk-" ∷ at_least 20 (one is_alnum) ∷ [])
    ∷ sequence (literal "ghp_" ∷ at_least 36 (one is_alnum) ∷ [])
    ∷ sequence (literal "ghu_" ∷ at_least 36 (one is_alnum) ∷ [])
    ∷ sequence (literal "xoxb-" ∷ at_least 1 (one is_dashed) ∷ [])
    ∷ sequence (literal "nvapi-" ∷ at_least 20 (one is_word_or_dash) ∷ [])
    ∷ sequence (
        literal "eyJ"
        ∷ at_least 20 (one is_word_or_dash)
        ∷ literal ".eyJ"
        ∷ at_least 1 (one is_word_or_dash)
        ∷ [])
    ∷ times 64 (one is_hex)
    ∷ []

abbrev is_word_at : Option ℕ → Bool
is_word_at none = false
is_word_at (some c) = is_word c

abbrev head : Units → Option ℕ
head [] = none
head (c ∷ cs) = some c

abbrev differ : Bool → Bool → Bool
differ true b = not b
differ false b = b

-- `\b` between what precedes and what follows
abbrev pub is_boundary : Option ℕ → Units → Bool
is_boundary before rest = differ (is_word_at before) (is_word_at (head rest))

-- The length of the longest match of `re\b` at the front. The patterns are greedy, and what follows
-- a repeated class is not in it, so the first match that backtracking finds is the longest.
abbrev pub longest : Re → Option ℕ → Units → Option ℕ
longest r before [] = if nullable r && is_boundary before [] then some 0 else none
longest r before (c ∷ cs) = elim (longest (derivative c r) (some c) cs) [
  | some n ↦ some (suc n)
  | none ↦ if nullable r && is_boundary before (c ∷ cs) then some 0 else none
]

-- `\bre\b` at the front
abbrev pub match_at : Re → Option ℕ → Units → Option ℕ
match_at r before cs = if is_boundary before cs then longest r before cs else none

abbrev pub redacted : Units
redacted = units "[REDACTED]"

-- `result.replace(pattern, '[REDACTED]')` under the flag `g`: `skip` units of the last match are
-- still to be left out.
abbrev pub replace_all : Re → Option ℕ → ℕ → Units → Units
replace_all r before skip [] = []
replace_all r before (suc skip) (c ∷ cs) = replace_all r (some c) skip cs
replace_all r before zero (c ∷ cs) = elim (match_at r before (c ∷ cs)) [
  | some n ↦ redacted ++ replace_all r (some c) (n - 1) cs
  | none ↦ c ∷ replace_all r (some c) 0 cs
]

abbrev pub redact_by : List Re → Units → Units
redact_by [] text = text
redact_by (r ∷ rs) text = redact_by rs (replace_all r none 0 text)

unfoldable pub redact_secrets : Units → Units
redact_secrets text = redact_by secret_patterns text

unfoldable pub read_queue : QueueWorld → List QueueEntry
read_queue w = or_else w.file []

-- The rename replaces the whole file, or nothing.
unfoldable pub write_queue :
    Outcome → List QueueEntry → QueueWorld → Result (Option Units) Unit × QueueWorld
write_queue succeeds entries w = (ok tt, record w { file = some entries })
write_queue (fails e) entries w = (thrown e, w)

pub data QueueResult : Type 0 where
  queued suppressed : QueueResult

abbrev answer :
    Result (Option Units) Unit × QueueWorld → Result (Option Units) QueueResult × QueueWorld
answer (ok x, w) = (ok queued, w)
answer (thrown e, w) = (thrown e, w)

-- `id` and `queued_at` are what `entryId()` and the clock give.
unfoldable pub enqueue :
    String
    → String
    → NotifyPriority
    → String
    → String
    → Outcome
    → QueueWorld
    → Result (Option Units) QueueResult × QueueWorld
enqueue kind message priority id queued_at write w =
    if kind == "chatter"
    then (ok suppressed, w)
    else answer (
        write_queue write
          (read_queue w
            ++ record {
              id = id;
              kind = kind;
              message = redact_secrets (units message);
              queued_at = queued_at;
              priority = priority;
            }
              ∷ [])
          w)

pub record DrainResult : Type 0 where
  pub sent : Bool
  pub count : ℕ
  pub error : Option Units

-- `xs.slice(0, n)` and `xs.slice(n)`
abbrev take : ℕ → Units → Units
take zero xs = []
take (suc n) [] = []
take (suc n) (x ∷ xs) = x ∷ take n xs

abbrev drop : ℕ → Units → Units
drop zero xs = xs
drop (suc n) [] = []
drop (suc n) (x ∷ xs) = drop n xs

-- A number in decimal, of at most `fuel` digits: `n + 1` are enough for `n`.
abbrev decimal : ℕ → ℕ → Units
decimal zero n = []
decimal (suc fuel) n = elim (n / 10) [
  | zero ↦ (48 + n) ∷ []
  | suc q ↦ decimal fuel (suc q) ++ (48 + n % 10) ∷ []
]

abbrev to_string : ℕ → Units
to_string n = decimal (n + 1) n

abbrev pub line_of : ℕ → QueueEntry → Units
line_of i e =
    to_string (i + 1)
    ++ units ". ["
    ++ take 5 (drop 11 (units e.queued_at))
    ++ units "] "
    ++ units e.kind
    ++ units ": "
    ++ e.message

-- `lines.join('\n')`, the first line that of entry `i`
abbrev pub lines_from : ℕ → List QueueEntry → Units
lines_from i [] = []
lines_from i (e ∷ []) = line_of i e
lines_from i (e ∷ f ∷ es) = line_of i e ++ 10 ∷ lines_from (i + 1) (f ∷ es)

unfoldable pub digest_of : List QueueEntry → Units
digest_of entries = take 4096 (
    units "Queued notifications ("
    ++ to_string (length entries)
    ++ units "):"
    ++ 10 ∷ lines_from 0 entries)

abbrev first_200 : Option Units → Option Units
first_200 none = none
first_200 (some text) = some (take 200 text)

-- the `catch` of `drainQueue`
abbrev retained : List QueueEntry → Option Units → DrainResult
retained entries e = record { sent = false; count = length entries; error = first_200 e }

abbrev cleared :
    List QueueEntry → Result (Option Units) Unit × QueueWorld → DrainResult × QueueWorld
cleared entries (ok x, w) = (record { sent = true; count = length entries; error = none }, w)
cleared entries (thrown e, w) = (retained entries e, w)

-- The `try` of `drainQueue`, on the world at the time that the transport answers.
unfoldable pub send_digest :
    List QueueEntry → Outcome → Outcome → QueueWorld → DrainResult × QueueWorld
send_digest entries (fails e) write w = (retained entries e, w)
send_digest entries succeeds write w =
    cleared entries (write_queue write [] (record w { sent = w.sent ++ digest_of entries ∷ [] }))

-- A drain that nothing else comes between.
unfoldable pub drain_queue : Outcome → Outcome → ℕ → QueueWorld → DrainResult × QueueWorld
drain_queue send write now w =
    if is_quiet_hours now
    then (record { sent = false; count = 0; error = some (units "still in quiet hours") }, w)
    else if is_empty (read_queue w)
    then (record { sent = false; count = 0; error = none }, w)
    else send_digest (read_queue w) send write w

unfoldable pub clear_queue : Outcome → QueueWorld → Result (Option Units) Unit × QueueWorld
clear_queue write w = write_queue write [] w
