-- ===== src/Atlas/NotifyQueue/Delivery.antt =====
-- What becomes of the notifications that src/atlas/notify-queue.ts takes, over calls that come one
-- after another.
use mathlib.Core.List.{append_assoc, append-nil, map-append}
use atlas_cli.Prelude.{
  ℕ, String, Bool, true, false, ◌&&◌, Option, some, List, [], ◌∷◌, ◌++◌, map, ◌≡◌, ◌≢◌, ◌↔◌, refl,
  sym, ap, subst, ◌∙◌, arith, string_eq, if◌then◌else◌, ◌==◌, All, is_empty,
}
use atlas_cli.Atlas.NotifyQueue.{
  Units, QueueEntry, NotifyPriority, QueueWorld, Outcome, succeeds, fails, redact_secrets,
  read_queue, QueueResult, DrainResult, queued, suppressed, write_queue, enqueue, drain_queue,
  send_digest, digest_of, is_quiet_hours,
}
use atlas_cli.Prelude.Action.{Result, ok}
use atlas_cli.Prelude.Regex.{units}

-- A call with what the clock, the disk and the transport give it.
pub data QueueCall : Type 0 where
  enqueues : String → String → NotifyPriority → String → String → Outcome → QueueCall
  drains : Outcome → Outcome → ℕ → QueueCall

abbrev pub step : QueueCall → QueueWorld → QueueWorld
step (enqueues kind message priority id queued_at write) w =
    (enqueue kind message priority id queued_at write w).1
step (drains send write now) w = (drain_queue send write now w).1

abbrev pub run : List QueueCall → QueueWorld → QueueWorld
run [] w = w
run (c ∷ cs) w = run cs (step c w)

-- The entry that a call means to deliver: none of a drain, of chatter, or where the write failed.
abbrev pub taken : QueueCall → List QueueEntry
taken (enqueues kind message priority id queued_at (fails e)) = []
taken (enqueues kind message priority id queued_at succeeds) =
    if kind == "chatter"
    then []
    else record {
      id = id;
      kind = kind;
      message = redact_secrets (units message);
      queued_at = queued_at;
      priority = priority;
    }
      ∷ []
taken (drains send write now) = []

abbrev pub accepted : List QueueCall → List QueueEntry
accepted [] = []
accepted (c ∷ cs) = taken c ++ accepted cs

-- A drain can clear the file.
abbrev pub CanClear : QueueCall → Type 0
CanClear (enqueues kind message priority id queued_at write) = Unit
CanClear (drains send write now) = write ≡ succeeds

abbrev pub flatten : List (List QueueEntry) → List QueueEntry
flatten [] = []
flatten (b ∷ bs) = b ++ flatten bs

-- Between two worlds the transport took the digests of the batches, in order, and what was queued
-- and what came is in the batches or still queued.
abbrev pub Accounts : QueueWorld → List QueueEntry → List (List QueueEntry) → QueueWorld → Type 0
Accounts w new batches w' =
    (w'.sent ≡ w.sent ++ map digest_of batches)
    × (flatten batches ++ read_queue w' ≡ read_queue w ++ new)

flatten-append : (xs ys : List (List QueueEntry)) → flatten (xs ++ ys) ≡ flatten xs ++ flatten ys
flatten-append [] ys = refl
flatten-append (x ∷ xs) ys =
    ap (λ l. x ++ l) (flatten-append xs ys) ∙ sym (append_assoc x (flatten xs) (flatten ys))

Accounts-nothing : (w : QueueWorld) → Accounts w [] [] w
Accounts-nothing w = (sym (append-nil w.sent), sym (append-nil (read_queue w)))

-- What both branches of a test give.
either {ℓ κ} :
    {A : Type ℓ} (P : A → Type κ) (b : Bool) (x y : A) → P x → P y → P (if b then x else y)
either P true x y hx hy = hx
either P false x y hx hy = hy

send_digest-Accounts :
    (send : Outcome) (w : QueueWorld)
    → (batches : List (List QueueEntry)) × Accounts w [] batches
        (send_digest (read_queue w) send succeeds w).1
unfolding send_digest write_queue read_queue
send_digest-Accounts (fails e) w = ([], Accounts-nothing w)
send_digest-Accounts succeeds w = (read_queue w ∷ [], (refl, append-nil (read_queue w ++ [])))

abbrev pub IsEnqueue : QueueCall → Type 0
IsEnqueue (enqueues kind message priority id queued_at write) = Unit
IsEnqueue (drains send write now) = ⊥

-- What a world holds where some entries have come to `w` and nothing was sent.
abbrev Gains : QueueWorld → List QueueEntry → QueueWorld → Type 0
Gains w new w' = (read_queue w' ≡ read_queue w ++ new) × (w'.sent ≡ w.sent)

if-Gains :
    (b : Bool) (e : QueueEntry) (w : QueueWorld)
    → let after : Result (Option Units) QueueResult × QueueWorld =
        if b
        then (ok suppressed, w)
        else (ok queued, record w { file = some (read_queue w ++ e ∷ []) }) in
      Gains w (if b then [] else e ∷ []) after.1
unfolding read_queue
if-Gains true e w = (sym (append-nil (read_queue w)), refl)
if-Gains false e w = (refl, refl)

enqueue-Gains : (c : QueueCall) (w : QueueWorld) → IsEnqueue c → Gains w (taken c) (step c w)
unfolding enqueue write_queue read_queue
enqueue-Gains (drains send write now) w h = elim h [ ]
enqueue-Gains (enqueues kind message priority id queued_at succeeds) w h =
    if-Gains (kind == "chatter") _ w
enqueue-Gains (enqueues kind message priority id queued_at (fails e)) w h =
    either (λ (x : Result (Option Units) QueueResult × QueueWorld). Gains w [] x.1)
      (kind == "chatter") _ _ (sym (append-nil (read_queue w)), refl)
      (sym (append-nil (read_queue w)), refl)

Gains-Accounts : (w w' : QueueWorld) (new : List QueueEntry) → Gains w new w' → Accounts w new [] w'
Gains-Accounts w w' new (stored, same) = (same ∙ sym (append-nil w.sent), stored)

step-Accounts :
    (c : QueueCall) (w : QueueWorld)
    → CanClear c
    → (batches : List (List QueueEntry)) × Accounts w (taken c) batches (step c w)
unfolding drain_queue
step-Accounts (enqueues kind message priority id queued_at write) w h =
    let c = enqueues kind message priority id queued_at write in
    ([], Gains-Accounts w (step c w) (taken c) (enqueue-Gains c w tt))
step-Accounts (drains send write now) w h =
    either
      (λ (x : DrainResult × QueueWorld).
        (batches : List (List QueueEntry)) × Accounts w [] batches x.1)
      (is_quiet_hours now) _ _ ([], Accounts-nothing w)
      (either
        (λ (x : DrainResult × QueueWorld).
          (batches : List (List QueueEntry)) × Accounts w [] batches x.1)
        (is_empty (read_queue w)) _ _ ([], Accounts-nothing w)
        (subst
          (λ x.
            (batches : List (List QueueEntry)) × Accounts w [] batches
              (send_digest (read_queue w) send x w).1)
          (sym h) (send_digest-Accounts send w)))

Accounts-then :
    (w w' w'' : QueueWorld) (new new' : List QueueEntry) (bs bs' : List (List QueueEntry))
    → Accounts w new bs w'
    → Accounts w' new' bs' w''
    → Accounts w (new ++ new') (bs ++ bs') w''
Accounts-then w w' w'' new new' bs bs' h h' = (
  h'.0
      ∙ ap (λ l. l ++ map digest_of bs') h.0
      ∙ append_assoc w.sent (map digest_of bs) (map digest_of bs')
      ∙ ap (λ l. w.sent ++ l) (sym (map-append digest_of bs bs')),
  ap (λ l. l ++ read_queue w'') (flatten-append bs bs')
      ∙ append_assoc (flatten bs) (flatten bs') (read_queue w'')
      ∙ ap (λ l. flatten bs ++ l) h'.1
      ∙ sym (append_assoc (flatten bs) (read_queue w') new')
      ∙ ap (λ l. l ++ new') h.1
      ∙ append_assoc (read_queue w) new new',
)

-- Of any calls one after another, where every drain can clear the file: the digests that the
-- transport took are of batches which, put together with what is still queued, are the entries that
-- were queued at first and the redacted messages taken since, each once and in order.
pub run-Accounts :
    (cs : List QueueCall) (w : QueueWorld)
    → All CanClear cs
    → (batches : List (List QueueEntry)) × Accounts w (accepted cs) batches (run cs w)
run-Accounts [] w h = ([], Accounts-nothing w)
run-Accounts (c ∷ cs) w h =
    let (bs, first) = step-Accounts c w h.0 in
    let (bs', rest) = run-Accounts cs (step c w) h.1 in
    (
      bs ++ bs',
      Accounts-then w (step c w) (run cs (step c w)) (taken c) (accepted cs) bs bs' first rest,
    )

-- A drain says that it sent exactly where it is outside the quiet hours, something is queued, the
-- transport takes the digest and the file can be written; then nothing is queued after it.
pub drain_queue-sent :
    (send write : Outcome) (now : ℕ) (w : QueueWorld)
    → (((drain_queue send write now w).0.sent ≡ true) ↔ (
        (is_quiet_hours now ≡ false)
        × (read_queue w ≢ [])
        × (send ≡ succeeds)
        × (write ≡ succeeds)))
      × ((drain_queue send write now w).0.sent ≡ true
          → read_queue (drain_queue send write now w).1 ≡ [])
unfolding drain_queue send_digest write_queue read_queue
drain_queue-sent succeeds succeeds now w = (ground arith, ground arith)
drain_queue-sent succeeds (fails e) now w = (ground arith, ground arith)
drain_queue-sent (fails e) succeeds now w = (ground arith, ground arith)
drain_queue-sent (fails e) (fails e') now w = (ground arith, ground arith)

-- Where the transport takes the digest and the file cannot be written, the drain says that it did
-- not send, and the next drain outside the quiet hours gives the transport the same digest again.
pub digest_replayed :
    (e : Option Units) (write : Outcome) (now later : ℕ) (w : QueueWorld)
    → is_quiet_hours now ≡ false
    → is_quiet_hours later ≡ false
    → read_queue w ≢ []
    → ((drain_queue succeeds (fails e) now w).0.sent ≡ false)
      × ((drain_queue succeeds write later (drain_queue succeeds (fails e) now w).1).1.sent
          ≡ (w.sent ++ digest_of (read_queue w) ∷ []) ++ digest_of (read_queue w) ∷ [])
unfolding drain_queue send_digest write_queue read_queue
digest_replayed e succeeds now later w h h' some_left = (ground arith, ground arith)
digest_replayed e (fails e') now later w h h' some_left = (ground arith, ground arith)

abbrev pub is_success : Outcome → Bool
is_success succeeds = true
is_success (fails e) = false

enqueues-Gains :
    (cs : List QueueCall) (w : QueueWorld) → All IsEnqueue cs → Gains w (accepted cs) (run cs w)
enqueues-Gains [] w h = (sym (append-nil (read_queue w)), refl)
enqueues-Gains (c ∷ cs) w h =
    let (first, sent) = enqueue-Gains c w h.0 in
    let (rest, sent') = enqueues-Gains cs (step c w) h.1 in
    (
      rest ∙ ap (λ l. l ++ accepted cs) first ∙ append_assoc (read_queue w) (taken c) (accepted cs),
      sent' ∙ sent,
    )

digest_taken :
    (entries : List QueueEntry) (send write : Outcome) (v : QueueWorld)
    → ((send_digest entries send write v).0.sent ≡ is_success send && is_success write)
      × ((send_digest entries send write v).1.sent
          ≡ v.sent ++ (if is_success send then digest_of entries ∷ [] else []))
      × (read_queue (send_digest entries send write v).1
          ≡ (if is_success send && is_success write then [] else read_queue v))
unfolding send_digest write_queue read_queue
digest_taken entries succeeds succeeds v = (refl, refl, refl)
digest_taken entries succeeds (fails e) v = (refl, refl, refl)
digest_taken entries (fails e) write v = (refl, sym (append-nil v.sent), refl)

-- Calls of `enqueue` that come while the digest of what a drain has read is being sent: their
-- messages are stored, each once and in order, behind what was read. The drain then says that it
-- sent exactly where the transport takes the digest and the file can be written, and the digest is
-- of what was read alone; but where it says so nothing is queued any more, the messages that came
-- included, and where it does not, all of them are.
pub enqueue_erased :
    (cs : List QueueCall) (send write : Outcome) (w : QueueWorld)
    → All IsEnqueue cs
    → let during = run cs w in
      let after = send_digest (read_queue w) send write during in
      (read_queue during ≡ read_queue w ++ accepted cs)
      × (after.0.sent ≡ is_success send && is_success write)
      × (after.1.sent ≡ w.sent ++ (if is_success send then digest_of (read_queue w) ∷ [] else []))
      × (read_queue after.1
          ≡ (if is_success send && is_success write then [] else read_queue w ++ accepted cs))
enqueue_erased cs send write w h =
    let (stored, sent) = enqueues-Gains cs w h in
    let (said, took, left) = digest_taken (read_queue w) send write (run cs w) in
    (
      stored,
      said,
      took ∙ ap (λ l. l ++ (if is_success send then digest_of (read_queue w) ∷ [] else [])) sent,
      left ∙ ap (λ l. if is_success send && is_success write then [] else l) stored,
    )
