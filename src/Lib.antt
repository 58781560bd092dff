-- ===== src/Lib.antt =====
-- Cairn, a clipboard manager: its history, and the rules by which the history keeps, shows and
-- deletes what was copied.
--
-- The program. packages/history/src/history.ts keeps the items that were copied in memory and in an
-- append-only store. Capture hands it a candidate (`ingest`); the palette pins, tags, titles and
-- removes items; a sweep (`evictNow`) deletes what packages/history/src/retention.ts plans;
-- `evictPreviewCache` takes previews out of memory when the vault locks; `load` replays the store.
-- Every change is appended to the store first, and memory follows only if that succeeds. The store of
-- packages/store/src seals each event into a line of its log, which a hash chain binds, and keeps the
-- bytes of the items in files of their own; packages/keyring/src keeps the key that it seals with. The
-- host of packages/agent-host/src runs a native process, the agent, that watches the clipboard.
--
-- The files.
-- - Base and its children: Boolean tests, lists, texts (lists of UTF-16 code units), and maps and
--   sets in order of insertion, as JavaScript keeps them (`Dict`), with a stable sort.
-- - Protocol: packages/protocol/src. Types has the interfaces of types.ts, Result the error codes,
--   Constants the limits, Tags `normalizeTag` and `normalizeTitle`, Ids `newItemId`.
-- - Retention: packages/history/src/retention.ts, one function per pass of `planEviction`. Reasons,
--   Bounds and Order have its theorems.
-- - History: packages/history/src/history.ts. Ports has the interfaces that it is given, State the
--   variables of `createHistory` and its local functions, Replay and Load the replay of the store,
--   Ingest, Updates, Tabs, Removal and Queries the operations, Run the calls as data. An operation
--   `f` of the interface is `f`, what follows its wait for a load is `f_body`.
-- - History/Synced and its children: memory is what the log restores, operation by operation.
--   History/Replayed: the maps that a replay restores. History/Fates and its children: what it
--   restores of each item and each tab. History/Untouched, Refused and
--   Failures: what an error leaves.
--   History/Blobs: the blobs that are deleted. Listed, Found and TagSets: what the queries give, and
--   the tags. History/Keyed: maps of items by their ids.
--
-- - Store: packages/store/src. Platform has what it takes from Node; Lines the log as a file, Chain,
--   Record and Payload chain.ts, record.ts and the payloads; Log, Opening and Compact the operations
--   of log-store.ts, Blobs the files of blobs.ts. Sealed, Kinds and Events: a line is read as it was
--   written. Files: the file and its lines. Written: the state of an open store as the events of its
--   log. Appended, Reopened, Fresh and Crashes: appends and openings. Replays, Rebuilt and Compacted:
--   compaction. Tampering: the chain. Ports and Restarts: the history over the store.
-- - Privacy: packages/privacy/src. Spans has `mergeSpans` and `mask`, Classify `classify`; Cover and
--   Verdicts have their theorems, Refusals is about hints and owners. What the regular expressions and the entropy scan find is an
--   argument.
-- - AgentHost/Framing: packages/agent-host/src/framing.ts, the splitter of the agent's output into
--   lines. Lines has the lines of a stream, Says what is to be reported of them, Chunks the proof.
-- - AgentHost/Reassembler: the first half of packages/agent-host/src/reassembler.ts, the
--   representations that come in chunks. Entries and Bounds have its invariant.
-- - AgentHost/Changes: its second half, the changes of the clipboard that wait for them. Counts is
--   about places, Settled about what a change waits for, Streams and Owners about the streams that are
--   open for it. Once has the theorem.
-- - AgentHost/Correlator: packages/agent-host/src/correlator.ts, the requests that wait for the
--   agent's responses. Settled has its theorem.
-- - AgentHost/Core: createAgentCore of packages/agent-host/src/spawn-agent.ts, which puts the splitter,
--   the correlator and the change assembler together. Stream has the theorem.
-- - AgentHost/Supervisor: the second half of packages/agent-host/src/spawn-agent.ts, the restarts of the
--   child process. What may happen, in any order, is the relation `Step`. Restarts has its theorems.
-- - SearchIndex: packages/search/src/index.ts, but for the query. Kept has its theorem.
-- - Capture: packages/capture/src/classify-kind.ts. Primary has its theorem; Uti has the tables of
--   packages/capture/src/normalize-reps.ts.
-- - AgentHost/WriteTransfer: packages/agent-host/src/write-transfer.ts, a write to the clipboard.
--   Pieces is about its chunks.
-- - Keyring: packages/keyring/src, the master key of the store. Backend has backend.ts, KeyFile the
--   file of the key, Unlocking the operations, Calls their sequences, Fits a locked keyring. OneKey, Zeroed, Phrases and
--   Rekeyed have the theorems.
-- - Hotkey: packages/hotkey/src/index.ts, but for the subscribers. Bound has its theorem.
--
-- How state corresponds. `State` has a field for each variable that `createHistory` closes over,
-- with the states of the store and of the search index, which an operation returns anew. An
-- operation that returns a promise of a result is a function to a result and a state: between the
-- wait for a load and its end it does not give up control. `load` does, so it is `begin_load` and
-- `finish_load`, and other calls may stand between them. Time and random bytes are arguments.
--
-- Bounds. Numbers are natural numbers: times and sizes in the program are non-negative and far
-- below 2^53. The digits of an id take fuel: 10 rounds for the time and 3 for a byte, which is as
-- often as the loops can run. The splitter's loop has as much fuel as it holds bytes, and a round
-- takes at least one; `cut_lines_lem` in AgentHost/Framing/Lines is that this is enough. The loop that
-- cuts a representation into chunks has as much fuel as it has bytes, and `pieces-concat` in
-- AgentHost/WriteTransfer/Pieces is that this is enough.
--
-- Parameters. For the history, the store, the search index, the classification, the masking, the hash,
-- the decoding of UTF-8 and `toLowerCase` are fields of `Port`. What the history relies on of the store
-- is `IsLog`: an append that succeeds adds its event at the end of a log that can be read, one that
-- fails adds nothing, and blobs do not change the log; and `IsBlobStore`: a deletion leaves every other
-- blob as it is.
--
-- For the store, `Platform` has the cipher, the hash, base64 and JSON of Node, and `IsPlatform` what
-- the store relies on of them; a number that JSON carries is taken to be a safe integer. Store/Examples
-- has a platform that meets it. The file system is a text for the log and a map for the blobs, and a
-- write that throws leaves a part of what it was to write.
--
-- For the keyring, `Crypto` has `safeStorage`, scrypt, HMAC, NFKC, base64 and JSON, and `IsCrypto` what
-- it relies on of them; what `safeStorage` answers, the random bytes and the fate of a write are
-- arguments of each call. The loop of `countLines` has as much fuel as the log has bytes, and
-- `count_lines_lem` in Keyring/Rekeyed is that this is enough. For the supervisor of the child process,
-- the order of its exits, errors, timers and answers is open: the theorems hold for every one.
--
-- Not modelled: logging, the schemas of the agent's lines, the query of the search index, capture but for
-- kinds and representations, the subscribers of the hotkey, the desktop application and the agent in
-- Swift.

mod Base
pub mod Protocol
pub mod Retention
pub mod History
pub mod AgentHost
pub mod Privacy
pub mod SearchIndex
pub mod Capture
pub mod Hotkey
pub mod Keyring
pub mod Store
