-- ===== src/Lib.antt =====
-- A model of the core of Atlas, a command-line assistant that keeps a graph of goals and tasks,
-- delegates tasks to hands, and guards its model calls and processes by small durable states.
--
-- The parts and their files:
--   ExecGraph: src/exec-graph. A world holds the two files of the graph (the log ledger.jsonl and
--     the snapshot graph.json), the outcomes of the writes to come, the clock and the read-only
--     switch. Contracts has the schemas of contracts.ts, Transitions the table and applyTransition
--     of transitions.ts, Ledger the fold, the reads and appendEvent of ledger.ts, Inputs what the
--     operations of api.ts are given and Api those operations, VerifierPort the two of
--     verifier-port.ts. Spec is an abstract machine on graphs, and Refinement the proof that each
--     operation takes only its steps; Sessions runs calls one after another. Idempotency is about
--     createTask and importTask by their keys.
--   Hands: src/hands. Contract has the receipts, the registry's lookup and the risk classes of
--     contract.ts, registry.ts and risk.ts, Secrets the scan of receipts; Verifier the checks of
--     verifier.ts and refuter.ts against a disk; Adapter the four operations of
--     exec-graph-adapter.ts over ExecGraph's Api and VerifierPort; Verdicts and Receipts their
--     properties. Under Assist, Pack is assist-contract.ts, Capability assist-approval-port.ts and
--     Session supervised-assist.ts, with Approval and Verbatim for their properties.
--   Learning: src/learning. Contract has the claim of claim-contract.ts and Claims the file store
--     of claim-store.ts; Plans, Interleaving and Lifecycle are about its operations, whose read and
--     write are two steps that others may come between.
--   Atlas: src/atlas. ProviderHealth is provider-health.ts, InstanceLease is instance-lease.ts,
--     SpendPolicy is spend-policy.ts and NotifyQueue is notify-queue.ts, with Delivery and
--     Redaction for its properties; Exclusion and Race are about the lease.
--   GoalRunner: src/goal-runner. Effects and RedLine are red-line.ts, with Keywords for the check
--     of commands; Budgets is budgets.ts, with Attempts for its counts; Contract the types of
--     types.ts; Plan and Runner are runner.ts, over ExecGraph's Api and Hands' Adapter. Refines and
--     Limits under each, and Plans, Halts, Repeats and Verdict under Runner, are about a run of a
--     goal.
--   SwarmExec: src/swarm-exec. Completion is completion-policy.ts, with Gates and Claims for its
--     verdict; Bundle is run-bundle.ts, with Writes for a disk that fails; Responders and Executor
--     are executor.ts over the graph, the hands and the bundles, with Refines and Proof for its
--     properties.
--   Evidence: src/evidence. Ledger has the claims of claim.ts and the chain and appends of
--     ledger.ts, with Chain for what a chain is, Appends and Growth for its entries over many
--     appends, Settled for an append that is made again and Tamper for what the hashes fix; Auditor
--     is auditor.ts, with Clean for its findings.
--   Prelude: the shared names; maps as association lists, calls that read and write a state and may
--     throw, and regular expressions on UTF-16 code units.
--
-- How the code corresponds: a function of the code keeps its name in snake case. A call that
-- mutates files takes the world and returns it beside its result or error. Times that are compared
-- are milliseconds, and those that are only stored are texts. Numbers are exact. A write that fails
-- leaves its file as it was: a torn line and a file cut off are not modelled. Files are called
-- healthy where the snapshot of the graph is the fold of its log, and its goals and tasks pass
-- their schemas. An operation of a claim store that loses a race starts again; begin_operation
-- takes a number of rounds, and one is enough where no other process writes in between.
--
-- Parameters: the date-time test of zod and randomUUID (Contracts.Runtime); SHA-256, JSON, the hand
-- manifests and the texts of reasons (Hands.Adapter.HandPlatform); SHA-256 and the lease of a claim
-- (Learning.Contract.Platform); what the disk, git and a command answer (Hands.Verifier.Disk); the
-- fingerprint of an attempt, the host of a URL and the texts of errors
-- (GoalRunner.Contract.GoalPlatform), and what control, the clock, the browser and the
-- notifications answer (GoalRunner.Contract.PlanEnv); the paths and the JSON of a bundle
-- (SwarmExec.Bundle.BundlePlatform), and what control and the swarm give
-- (SwarmExec.Executor.SwarmEnv); SHA-256, JSON and dates of a pack
-- (Hands.Assist.Pack.AssistPlatform) and what the page answers (Hands.Assist.Session.AssistEnv);
-- SHA-256 of an entry (Evidence.Ledger.EvidencePlatform), and what the disk says of a path.
--
-- Not modelled: the bot, the command line and the tools, the calls of models, the research swarm, the
-- operator's dispatch, the policy of notifications, the GCS store of claims, the lock file
-- itself (a write under it is one step), and the heartbeat timers.
pub mod Prelude
pub mod ExecGraph
pub mod Learning
pub mod Atlas
pub mod Hands
pub mod GoalRunner
pub mod SwarmExec
pub mod Evidence
