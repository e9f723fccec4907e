-- ===== src/Box.antt =====
-- The box, lij-worker/node: the registry's code under Node with a file store.
pub mod Order
pub mod Reconcile
pub mod Loop
pub mod Limiter
pub mod Bounded
pub mod Choice
pub mod Levels
pub mod Converge
pub mod Moves
pub mod Cycle
pub mod NameList
pub mod AllNames
pub mod Outcomes
pub mod CycleRun
pub mod WholeCycle
pub mod Remote
pub mod RemoteKeys
pub mod RemotePages
pub mod Signed
pub mod Ticker
pub mod Quiet
pub mod Tie
pub mod Maps
pub mod Cache
pub mod Server
pub mod Address
pub mod KeyFile
pub mod Handler
pub mod Answers
pub mod FileKeys
pub mod FileStore
pub mod FileNames
pub mod Takes
pub mod Files
pub mod Stored
pub mod FileList
pub mod ListOrder
pub mod Sweep
pub mod Paging
pub mod Entries
pub mod OwnKeys
pub mod FileKv
