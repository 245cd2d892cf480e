-- ===== src/Tests.antt =====
-- Concrete runs of the program: a server that keeps its records in a list, and the theorems applied
-- to small inputs.
pub mod Server
pub mod Samples
mod Components
mod Paths
pub mod Array
mod Values
mod Records
mod Orphans
mod Removes
mod Directories
mod Documents
mod Requests
mod Threads
mod Sessions
mod Printing
mod Replies
mod Scripts
mod Processes
