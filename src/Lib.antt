-- ===== src/Lib.antt =====
-- The LIJOX registry: the Cloudflare worker under lij-worker/src and the box under
-- lij-worker/node, its second door, which runs the same routes over its own store and keeps the
-- two stores level.
--
-- Parts and files.
--
-- Kv: the key-value store that every route reads and writes. It is an interface, a record of the
-- operations and of the laws that the code relies on: a put is read back until it expires, a
-- delete removes, other keys are not touched, and a listing shows what a read shows. Theorems
-- take any store that fills it; Tests/Memory fills it with a list.
--
-- Platform: what is not in the repository, as parameters without laws: SHA-256, the two calls of the
-- secp256k1 package, the bytes of a stored value, and the conversion of a text to a number.
--
-- Mirror and Mirror/Clocked, of lij-worker/src/mirror.js: mirrorable, clockOf, recordAllows,
-- mirrorMsg, and clockedStore, through which all routes but those under /mirror/ write.
--
-- Worker, of lij-worker/src/index.js. Reply: json, err, rateLimited, tooLarge, early return.
-- Hex: hexToBytes. Encode: encodeURIComponent and zbase32Decode. LndSigned:
-- verifyLndSignedRegistration. MirrorRoutes: the routes under /mirror/. Names: those under
-- /names/. BackupAuth: the digests and verifyBackupAuth. StoredCopy and Backup: the routes under
-- /backup. Scb: /lsp-backup. Regex: the regular expressions of the source. Urls, Tatara and
-- Routes: cleanFilterUrl, cleanTatara and cleanRoutes. RegisterMsg: canonicalRegisterMsg and
-- canonicalUnregisterMsg. Records and Registry: /lsps/register and /lsps/unregister. Bulk:
-- kvGetMany and kvListAll. Listing: /lsps. Lookup: /.well-known/lnurlp. MirrorDoor: the block
-- under /mirror/, from its HTTP call to its JSON answers. Dispatch: fetch, which picks the route
-- of a request and runs it, with the preflight, /health and the retired routes. MirrorPut,
-- Signers, Holders, Challenge, Copies, Versions, Reaches, History, Resend, Generations,
-- EncodedFields, Messages, Registrations, Departures, Ranking, Publishing, Keeps, RouteKeeps and
-- Separation hold the proofs on these.
--
-- Box. Reconcile and Loop: the class Reconciler of lij-worker/node/reconcile.js, whose calls of
-- the other door are the routes of Worker/MirrorRoutes on the other store. Remote: listRemote
-- and the cycle that reads the other door page by page. Signed: call, which signs what it asks
-- of the other door. Ticker: tick and the log of the failures. Order: the order of texts.
-- Limiter: lij-worker/node/limiter.js. Maps and Cache: memCache of lij-worker/node/server.js.
-- Server: its clientAddress, and the headers and the body that nodeHandler hands to the worker.
-- Handler: the answer of nodeHandler. KeyFile: loadOrMakeKey. FileKeys, FileStore and FileList:
-- lij-worker/node/store.js, and Sweep its sweep and counts. FileNames, Takes, Files, Stored,
-- OwnKeys, FileKv, Entries, ListOrder, Paging, RemoteKeys, RemotePages, Quiet, Address, Answers,
-- Choice, Levels, Converge, Moves, Cycle, NameList, AllNames, Outcomes, CycleRun, WholeCycle,
-- Tie and Bounded hold the proofs on these.
--
-- Base: texts, numbers, JSON values and lists. Tests: the examples.
--
-- How the code is read.
-- A route is a function from a store and a request to a reply and a store. `stop` is a return before
-- any write, `go` carries the store after the writes. A handler that throws answers `thrown`.
-- A request reads the clock once, as `now` in ms.
-- A JavaScript string is the list of its UTF-16 units. toLowerCase and toUpperCase change ASCII
-- letters and the few units that map to them.
-- A finite number is a whole number; fractions are not modelled, NaN and the infinities are. A number
-- from 10^21 on is written out, where JavaScript writes an exponent.
-- A stored value is the text of a JSON value or bytes that are no JSON text. JSON.parse gives back
-- what JSON.stringify wrote, but null for a number that is not finite.
-- The 32-bit accumulator of zbase32Decode wraps at 2 ^ 32 and is read as unsigned.
-- The double of a score in /lsps is a parameter, a function of the fee and the uptime; NaN among the
-- scores leaves the order to the engine, and the model then takes the order of an insertion sort.
-- kvListAll reads 50 pages at most, listRemote 100 pages and a cycle makes 300 moves at most, the
-- source's own bounds; kvGetMany runs on as many rounds as there
-- are names, each of which takes 100 names off.
-- All other loops are structural recursions. The decimal digits of n are written on fuel n + 1, one
-- unit a digit, which is enough since a number has no more digits than its value plus one.
-- KV's delayed propagation between locations, and failing reads and writes, are not modelled.
-- The file store keeps a value and its sidecar in two maps of files; a write by rename is one step. A
-- file name that a listing decodes is one that put wrote, so its bytes are valid UTF-8.
--
-- The reconciler's calls are taken to be admitted; the URL parser, which the target of a signed
-- call goes through, is a parameter. The box's store is a store with the laws of Kv in which a
-- key that its file store refuses (FileStore's split throws) ends the cycle; Box/FileKv is such
-- a store, the file store on the ASCII keys with a directory of their own and any store on the
-- others.
--
-- Not modelled: the CORS headers that the worker adds to its answers, which are constants; the
-- types text and arrayBuffer of get of lij-worker/node/store.js; startRegistry of
-- lij-worker/node/server.js, which reads settings and opens sockets; start and stop, the timer, and
-- the HTTP transport of the reconciler.
pub mod Base
pub mod Platform
pub mod Kv
pub mod Mirror
pub mod Worker
pub mod Box
pub mod Tests
