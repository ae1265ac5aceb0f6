-- ===== src/Atlas/NotifyQueue/Tests.antt =====
-- The queue of src/atlas/notify-queue.ts at small inputs.
use atlas_cli.Prelude.{
  ℕ, ◌+◌, ◌*◌, true, false, none, some, List, [], ◌∷◌, ◌≡◌, ◌≢◌, refl, arith, string_eq,
}
use atlas_cli.Prelude.Regex.{units}
use atlas_cli.Atlas.NotifyQueue.{
  QueueEntry, QueueWorld, normal, panic, succeeds, fails, redact_secrets, read_queue, send_digest,
  digest_of, is_quiet_hours,
}
use atlas_cli.Atlas.NotifyQueue.Delivery.{
  QueueCall, enqueues, drains, run, accepted, Accounts, run-Accounts, enqueue_erased,
}

abbrev new_queue : QueueWorld
new_queue = record { file = none; sent = [] }

-- a little after noon, UTC
abbrev noon : ℕ
noon = 12 * 3600000 + 5

abbrev entry : QueueEntry
entry = record {
  id = "nq_1";
  kind = "error";
  message = units "disk full";
  queued_at = "2026-01-02T20:15:00.000Z";
  priority = normal;
}

abbrev one_queued : QueueWorld
one_queued = record { file = some (entry ∷ []); sent = [] }

abbrev calls : List QueueCall
calls =
    enqueues "error" "key sk-abcdefghij0123456789!" normal "nq_1" "2026-01-02T20:15:00.000Z"
      succeeds
    ∷ enqueues "chatter" "hello" normal "nq_2" "2026-01-02T20:16:00.000Z" succeeds
    ∷ drains (fails none) succeeds noon
    ∷ drains succeeds succeeds noon
    ∷ enqueues "important" "later" panic "nq_3" "2026-01-02T20:17:00.000Z" succeeds
    ∷ []

redaction :
    redact_secrets (units "key sk-abcdefghij0123456789! xsk-abcdefghij0123456789")
    ≡ units "key [REDACTED]! xsk-abcdefghij0123456789"
unfolding redact_secrets
redaction = refl

token : redact_secrets (units "eyJaaaaaaaaaaaaaaaaaaaa-.eyJb-- x") ≡ units "[REDACTED]-- x"
unfolding redact_secrets
token = refl

digest :
    digest_of (entry ∷ entry ∷ [])
    ≡ units "Queued notifications (2):\n1. [20:15] error: disk full\n2. [20:15] error: disk full"
unfolding digest_of
digest = refl

is_night : is_quiet_hours (19 * 3600000) ≡ true
unfolding is_quiet_hours
is_night = refl

is_day : is_quiet_hours noon ≡ false
unfolding is_quiet_hours
is_day = refl

is_queued : read_queue one_queued ≢ []
unfolding read_queue
is_queued = λ e. ground (arith, e)

run-Accounts_example :
    (batches : List (List QueueEntry)) × Accounts new_queue
      (accepted calls)
      batches
      (run calls new_queue)
run-Accounts_example = run-Accounts calls new_queue (tt, (tt, (refl, (refl, (tt, tt)))))

abbrev late : List QueueCall
late =
    enqueues "error" "again" normal "nq_2" "2026-01-02T20:16:00.000Z" succeeds
    ∷ enqueues "chatter" "hello" normal "nq_3" "2026-01-02T20:16:00.000Z" succeeds
    ∷ []

enqueue_erased_example :
    let after = send_digest (entry ∷ []) succeeds succeeds (run late one_queued) in
    (read_queue (run late one_queued) ≡ entry ∷ accepted late)
    × (after.0.sent ≡ true)
    × (after.1.sent ≡ digest_of (entry ∷ []) ∷ [])
    × (read_queue after.1 ≡ [])
unfolding read_queue
enqueue_erased_example = enqueue_erased late succeeds succeeds one_queued (tt, (tt, tt))
