-- ===== src/Lib.antt =====
-- A model of the decision logic of claude-code-fusion, in which Claude Code delegates work to other
-- engines' command line programs through companions, and the Fusion plugin decides from records of
-- past jobs, from shell commands and from clocks what is advised, allowed or counted.
--
-- The parts, and the files that model them:
--
-- Args (shared/companion/args.mjs, which the cursor, devin and grok plugins copy): `parseArgs` is
-- Args/Parse `parse_args`, `parseRawArgs` is Args/Raw `parse_raw_args`, over the tokens of
-- `rawArgumentTokens`, Args/Tokens `raw_argument_tokens`; `rawBooleanOptionRequested` is
-- Args/Request. A loop over an index is a recursion on the list with the loop's variables as a
-- record; a round that advances the index once more sets the field `skip`. Thrown errors are values
-- of `ArgError`.
--
-- Codex (plugins/codex/scripts/lib/args.mjs): the companion's own copy of the parser, which has no
-- aliases; Codex/Args is `parseArgs` and Codex/Raw is `parseRawArgs`, with the parts that are the
-- same text taken from Args; Codex/Refines and Codex/RawRefines are proofs. Codex/Records is the
-- stored record of a job (lib/state.mjs), with the properties that the operations on its file read
-- or write, and a patch, which says of each whether it is set. Codex/Jobs has these operations, each
-- of which runs under the lock of the file and gives the file and a result. Codex/History is the two
-- loops of `pruneJobState`; what the lock of a job shows is a function of the job. Codex/Finished,
-- Final, Finishing and Quota are proofs.
--
-- Breaker (plugins/fusion/scripts/breaker-check.mjs): Breaker/Kinds has the tables and patterns,
-- Breaker/Records reads a failure from a job record, Breaker/Latest is `latestBreakerFailure`, and
-- Breaker/Report has `readDeduplicatedJobRecords` and `run`, which gives the lines. A job record is
-- the record of the properties that the code reads; each is missing, a string, or something else.
-- The host's sort is an insertion by the program's comparator.
--
-- Worker (plugins/fusion/scripts/lib/lifecycle/budget.mjs, with tables of lib/worker-state.mjs):
-- Worker/Budget has `workerLimits`, `workerBudgetFailure` and the update of `markBudgetFailure`. The
-- text of a reason is the limit that it names. Worker/Records is the stored record of a worker, as
-- far as these functions use it, and Worker/Reopen is `reopenWorkerContinuation` of
-- lib/worker-state.mjs. Worker/Reasons and Worker/Verdicts are its collection and its verdicts:
-- `markWorkerCollected`, `recordWorkerAcceptance` and `applyQueuedVerdict`; an error is named by
-- what its text says.
--
-- Command (plugins/fusion/scripts/lib/verification-command.mjs): Command/Segments is
-- `commandSegments`, Command/Runners the tables and word tests, Command/Recognize
-- `verificationCommand`, Command/Evidence `verificationEvidence`. Command/Shell is a small shell of
-- its own, which says what an exit status is, and in which `pipefail` is on where a `set` for it was
-- run; Command/Status is the proof about it.
--
-- Streak (plugins/fusion/scripts/lib/guard/read-streak.mjs): Streak/Segments is `splitReadSegments`,
-- Streak/Commands `isReadOnlyBash`, Streak/Turns `handleReadStreak` with the two fields of the
-- guard's state (lib/guard/state.mjs) that it uses. Streak/Quoting has the backslash, the single and
-- the double quotes of a shell as a machine of its own, against which the segments are judged; it
-- does not know the process substitutions and the `$'` quotes of bash. A call that finds the lock
-- taken leaves the state alone.
--
-- Guard (plugins/fusion/scripts/lib/guard, and lib/posture.mjs): Guard/Settings reads the settings,
-- Guard/State has the state of a session and `normalizeState`, Guard/Names the safe identifiers and
-- the lanes, Guard/Bytes the sizes and the paths of a write, Guard/Transcript what is read of a
-- transcript. Guard/Write and Guard/Settle are the two callbacks of `handleWrite`, before a write
-- and behind it, Guard/Dispatch those of `handleDispatch`, Guard/Verify that of `handleBash`.
-- Guard/Calls and Guard/Hooks put them together to `runHook`: a call of the hook and the state file
-- give a reply and the state file; `execute_hook` is what `executeHook` makes of a run that throws.
-- The other files are proofs: Guard/Leaves lists the ways that a call can go, Guard/Kept says what
-- the steps of a session keep, and Guard/Limits has the bounds of the strict posture. A state file
-- holds what the guard itself wrote, and the two locked callbacks of one write have no other call
-- between them. `run_hook` is less than `runHook`: the pruning of old state files and
-- `handleReadStreak`, which come before the handlers and may write the state file too, are not in
-- it. The read streak touches two fields of the state that no handler reads, and is Streak's.
--
-- Lock (shared/companion/record-lock.mjs, with the comparisons of process-identity.mjs): Lock/Disk
-- is the disk of one lock, its link, its owner directories and the slots of the claims of those who
-- reap it. Lock/Calls and Lock/Claims are a call of `withRecordLock` as step relations, an access of
-- the disk or of the process table at a time: `Wait` is the loop itself, `Acquire` is
-- `acquireReaperClaim`, `Reclaim` is `reclaimReplacedLock` with `cleanupReaperClaims`, and `Release`
-- is `releaseLock`. Lock/System interleaves the calls of any processes, which exit and start at any
-- point. The token of a lock is the number of its call and that of a claim names its call, since
-- random tokens do not meet; a directory is prepared and renamed in one step; of the errors of the
-- disk, the one that matters is modelled, that of the unlinking of the lock. `TightRun` says of a
-- run that a slot still points to a claim whenever the owner of that claim is judged replaced; the
-- source does not see to that. Lock/Chain, Rivals, Facts, Frames, Moves, Listings and Invariant are
-- proofs, Lock/Turn and Lock/Schedule run calls in a given order, Lock/Alone and Lock/Recovery let
-- one call go on alone.
--
-- Common: texts are lists of UTF-16 code units, with the string methods that the sources call;
-- regular expressions are data with a matcher (Common/Regex), so that every pattern is written out.
-- Lower case is that of the ASCII letters. Numbers are natural numbers; differences of times are
-- compared by sums.
--
-- Parameters: `Date.parse`, which gives no time for a text that is no date or lies before 1970, and
-- the `RegExp` constructor for the pattern that a user configures; for Guard the host's `Number`, and
-- in a record `Host` its paths, digests and working directory; for Codex/History `localeCompare` on
-- files. None is asked for any law.
--
-- The loops on fuel are the one of `stripWrappers`, whose bound of four is the source's own, and the
-- test for a double in Streak/Turns, whose fuel is the number that is tested; the star of a pattern
-- takes as many rounds as the text has units, which is all that consuming rounds can use.
--
-- Not modelled: the file system and processes beyond what the lock uses, the stores of records, the
-- audit of the guard and its repair of foreign state files, the hooks of the worker lifecycle, the
-- wording of messages, the companions of the single engines, statistics and benchmarks.
pub mod Common
pub mod Args
pub mod Breaker
pub mod Worker
pub mod Codex
pub mod Command
pub mod Streak
pub mod Guard
pub mod Lock
