-- ===== src/Workspace.antt =====
-- `MemoryWorkspace` of src/mem_sandbox/workspace/memory.py.
-- A method is an action on the state: it returns a result or an error, and the state it leaves.
-- Each method runs under the state lock from its first look at the state to its last write, so a
-- run of the workspace is a sequence of whole actions.
pub mod Op
pub mod Writes
pub mod Transfers
pub mod Published
pub mod WriteEnds
pub mod PathEnds
pub mod Apart
pub mod TransferEnds
pub mod Frames
pub mod History
pub mod Contents
pub mod Stale
pub mod Moves
pub mod Reads
pub mod ReadBack
pub mod Ranges
pub mod Patches
pub mod Restores
