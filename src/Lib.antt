-- ===== src/Lib.antt =====
-- A verification library for mcp-gateway-lite, a gateway in front of MCP servers (gateway/*.go).
--
-- The gateway takes a request at /mcp/<name>, checks a rate limit, summarises the JSON-RPC body,
-- blocks what the upstream's tool policy forbids, forwards the rest, and looks at the responses to
-- tools/list and tools/call: it hides tools, compares listings with a lockfile and has results
-- scanned, in JSON bodies and in event streams. It keeps an audit log.
--
-- Files, with the code that each is about:
--   Base        lists of bytes for strings, association lists for maps, numbers, tests
--   Codec       what the code asks of encoding/json, crypto/sha256 and strconv.Quote: an interface
--               that its users take as a parameter, and the shapes that it decodes
--   Config      gateway/config.go: the records, Validate, ParseUpstreamFlag; Load has Load, Names is about
--               the names
--   Rpc         gateway/jsonrpc.go: summarizeRPC, addProbe
--   Policy      gateway/policy.go: newToolPolicy, blockReason, allows
--   Canonical   gateway/canonical.go: canonicalAppend, appendPythonString (Runes decodes UTF-8)
--   Lock        gateway/lock.go: toolFingerprint, parseLockTools, toolsListHash, verify; Prepare has
--               loadLockFile and prepareLock. On gateway/lockinit.go, Client has doRPC and fetchAllTools,
--               Capture the record of an upstream's tools, Init LockInit; Verify, Recorded, Written
--               and Merged hold proofs
--   PromptProof gateway/promptproof.go: verdicts, settings, parseReport, collectStrings;
--               Process has a coprocess (ppProc), Pool the start of a Scanner's pool, and Scan and
--               Close as moves that interleave. Categories, Fuel and Accounts hold proofs, and so do
--               Pool's Moves, Invariant and Startup (what the processes own), Serving (Scan is served),
--               Shutdown and Races (Close beside Scan)
--   Rewrite     gateway/responsefilter.go: examineMessage, scanMessage, handleMessage; Body has
--               processJSONBody and modifyResponse; Filter, Examine, Strict, Scan, Settings,
--               Observing, Observed, Refusal and Guarded hold proofs (Guarded's
--               Streams over Sse's events, its Bodies over whole JSON bodies, its Replies
--               over what the client gets of them)
--   Sse         gateway/sserewrite.go: the rewriter over a handler of messages. Feed reads the
--               stream a byte at a time, on which Chunks and Streams rest; Events has a
--               specification on events; Transparency is about lax streams
--   Ratelimit   gateway/ratelimit.go: tokenBucket, sessionLimiter; Oldest, Table, Runs and
--               Isolated hold proofs
--   Gateway     gateway/gateway.go and gateway/wellknown.go; Types has the state and the audit entry of
--               gateway/audit.go, Handler the handlers, Build has New, Processes New with the processes
--               of the scanners, and Close; Audit, Routes, Steps, Policies, Enforcement, and Processes'
--               Rounds and Released hold proofs
--   Audit       gateway/audit.go: Auditor over a sink whose writes may fail midway; Sequences holds a proof
--   Command     cmd/mcp-gateway-lite/main.go: run, from the parsed flags; Runs and Settings
--               hold proofs
--   Tests       the theorems at concrete inputs, over a codec of one-byte tokens (Toy)
--
-- State is passed explicitly: RewriteState through the messages of a response, SseRewriter through
-- the chunks of a stream, SessionLimiter through requests, State (limiters, log, upstream calls)
-- through the gateway. A mutex makes an operation one step. A Go map is an association list whose
-- order is the order in which it is ranged over. `none` and `err` are error returns.
--
-- Fuel: ingest_loop runs on the length of the chunk and every round takes a byte at least
-- (Sse.Feed); digits runs on the number itself (Base.Int); collect_strings runs on the length of the text,
-- since the parts of a text are shorter than the text (PromptProof.Fuel).
--
-- Concurrency: Scan and Close of a scanner interleave move by move (PromptProof.Pool.Step); a receive
-- wants a process in the channel, a send room in it. Of the system the model counts the pipe ends that
-- are open, that of a child's stderr in os/exec among them, and the children that are not reaped.
--
-- Fetching: a run of LockInit asks for max_lock_pages pages of an upstream at most, and then fails.
--
-- Not modelled: what the system and other programs do, which is a parameter: reading and writing of
-- files, the HTTP client and the transport of newProxy, the server and its signals, the package flag, what a
-- coprocess answers to a frame. Also notifyInitialized, whose outcome is ignored, time and duration of
-- an audit entry, upgrades of a connection, and the wrappers' counting of bytes, for which the lengths of
-- what passes stand. A broken-off answer ends the handler by a panic of net/http/httputil, which is taken
-- for the end of the request without the steps behind it. float64 is an interface, since the code uses a few
-- operations of it; net/url, encoding/json and the digest are parameters too. Theorems that need no law
-- of a parameter assume none.
pub mod Base
pub mod Audit
pub mod Command
pub mod Codec
pub mod Config
pub mod Rpc
pub mod Policy
pub mod Canonical
pub mod Lock
pub mod Sse
pub mod PromptProof
pub mod Rewrite
pub mod Ratelimit
pub mod Gateway
pub mod Tests
