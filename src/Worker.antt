-- ===== src/Worker.antt =====
-- The worker, lij-worker/src/index.js: one module for each group of routes.
pub mod Hex
pub mod Regex
pub mod Urls
pub mod Encode
pub mod Reply
pub mod LndSigned
pub mod MirrorRoutes
pub mod MirrorDoor
pub mod MirrorPut
pub mod Names
pub mod Signers
pub mod Holders
pub mod BackupAuth
pub mod StoredCopy
pub mod Backup
pub mod Tatara
pub mod Records
pub mod Registry
pub mod Registrations
pub mod Departures
pub mod Bulk
pub mod Listing
pub mod Lookup
pub mod Ranking
pub mod Publishing
pub mod Routes
pub mod RegisterMsg
pub mod EncodedFields
pub mod Messages
pub mod Scb
pub mod Generations
pub mod Challenge
pub mod Copies
pub mod Versions
pub mod Reaches
pub mod History
pub mod Dispatch
pub mod Keeps
pub mod RouteKeeps
pub mod Separation
pub mod Resend
