-- ===== src/Lib.antt =====
-- Stellar Mosaic: a private order book on Stellar. Notes of value are leaves of an append-only hash
-- tree that the contract keeps; a wallet rebuilds the tree from chain events, keeps its own notes and
-- their secrets, plans how to assemble a note of an exact amount, and lets a server queue the actions
-- that only the wallet can take. This library models the TypeScript core that does this.
--
-- The parts, and the files that model them:
--
-- - packages/sdk/src/amount.ts (parseAmount, parseRatio, computeMinOut, computeMinOutAtPrice,
--   formatAmount, formatPrice): Amount. A bigint is a ℤ of Prelude/Int, and a string is a list of
--   UTF-16 code units of Text, which holds BigInt(text), toString(radix), trim and padding.
-- - packages/sdk/src/field.ts (toBigInt, toFieldHex, randomField, fieldToBytes32): Field. The random
--   bytes are an argument.
-- - packages/sdk/src/noteTree.ts (class NoteTree): NoteTree, with the state of the class, the memo of
--   the zero ladder included, passed from call to call. NoteTree/Spec says what the tree promises: the
--   complete hash tree of 2 ^ 32 leaves. The compression circuit is the parameter compress.
-- - packages/sdk/src/eventReplay.ts (NoteEventReplayer): EventReplay, the cache of replayed desks. The
--   sources of events and fills are not part of it: the outcome of a call is an argument. A state shares
--   its array of events with the source, so an array is an address, and what the arrays hold during a
--   call is an argument too.
-- - packages/sdk/src/orderPlan.ts (spendableNotes, maxIn, planAssembly): OrderPlan.
--   OrderPlan/Execution says what running a plan means.
-- - packages/sdk/src/notes.ts (normalizeNote, mergeNote, NoteManager) and the notes of
--   packages/sdk/src/memoryStore.ts: NoteBook, and NoteBook/Indexing for reconcile. The manager is the
--   stored records and the number of change notifications.
-- - packages/sdk/src/activity.ts and the event log of packages/sdk/src/memoryStore.ts: Activity.
-- - packages/mcp/src/store.ts (MemoryMosaicStore: operations, client actions, operation events):
--   ActionQueue.
-- - packages/mcp/src/store.ts (MemoryMosaicStore: challenges, sessions, wallet backups): Credentials.
--   The SHA-256 of a token is a parameter.
-- - packages/mcp/src/store.ts (MemoryMosaicStore: the Base-shield jobs, and assertBridgeMatches):
--   BaseShields. Of a desk, the address of its bridge is kept; insertDesk replaces it, without the
--   sponsor's secret.
-- - packages/sdk/src/chainEvents.ts (ChainEventSource): ChainEvents, for one contract: the readings of
--   pages, the recovery from an error about the range of ledgers, the fills and the fatal marker. The
--   lock of a contract is the order of its calls. The server is a parameter, by the outcome of each of
--   its calls, which are numbered. LedgerRange is parseLedgerRange.
-- - frontend/src/bookIndexer.ts: BookIndex. BookIndex holds the rows, the keys and the checks of decoded
--   values; Handlers and Reduce are applyBookEventPage; Ordering is ordersFor; Release is verifyRelease
--   and verifyLiveRelease; Live is syncTrustedBookIndex and the views it reads; Snapshot is setFatal,
--   snapshot, writeLiveSnapshot and clearBookIndex; Sync is syncBookIndex and recoverLiveBookIndex.
--   BookIndex/Book is what the index stands for: a book of orders, changed one order at a time. The
--   stores of IndexedDB are ObjectStore, and decoded contract values are ChainValue. The network and the
--   RPC server are parameters, by the outcomes of their calls.
-- - packages/sdk/src/types.ts: Types, and beside the operations that use them.
--
-- They interact as the code does: amounts are printed and read in OrderPlan by Amount, leaves are field
-- values of Field, EventReplay runs NoteTree over a list of events, reconcile takes the notes of
-- NoteTree and writes to the log of Activity, as ChainEvents does, and the two readers of chain events,
-- BookIndex/Sync and ChainEvents/Source, read the server's errors by LedgerRange.
--
-- Conventions. A method takes the state and returns the new state beside its result; a call that throws
-- returns throw with the error's kind, and the state that the code has left by then. An absent optional
-- field is none; a property that is present with the value undefined, which a spread of objects would
-- copy, is outside the model. The clock, random ids and random bytes are
-- arguments; a call reads the clock once. Awaited calls run to their end one after the other, and promises
-- that run at the same time run in the order of their list. A bigint that is stored as its decimal text
-- is the integer itself. A Map is
-- a list in the order of insertion, and Array.prototype.sort is a stable insertion sort. Keys of
-- metadata objects are plain data (no __proto__). toLowerCase is modelled on the characters whose lower
-- case is an ASCII letter.
--
-- Bounds. Loops over lists are structural. The 32 levels of the tree are a count of rounds. Positions
-- in pathAt are 32-bit words, as the operators &, ^ and >> make them. to_digits takes the number itself
-- as its fuel, plus one round, which is enough since each round divides by the radix.
-- The fuel of a loop over the server's pages is a bound on the pages read; a loop that runs out of it
-- gives none, which stands for a loop that goes on.
--
-- Not modelled: the SDK client, proving and submission, SQLite, HTTP, the MCP tools, the command line
-- and the agents, which are calls of other systems or planned for later; the frontend other than the
-- book index; the opening and the versions of its database; the decoding of XDR and the logging; and the
-- Rust contracts and services, the Noir circuits and the Solidity bridge, which are in other languages.
pub mod ActionQueue
pub mod Activity
pub mod Amount
pub mod BaseShields
pub mod BookIndex
pub mod ChainEvents
pub mod ChainValue
pub mod Credentials
pub mod EventReplay
pub mod Field
pub mod LedgerRange
pub mod NoteBook
pub mod NoteTree
pub mod ObjectStore
pub mod OrderPlan
pub mod Prelude
pub mod Text
pub mod Types
