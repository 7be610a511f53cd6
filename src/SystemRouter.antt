-- ===== src/SystemRouter.antt =====
-- frontend/routers/system.py: the netplan files, the handler of the settings form, and the tasks that
-- restart the system or the host.
pub mod Sorted
pub mod Disk
pub mod Netplan
pub mod Conflicts
pub mod Reloaded
pub mod Rewritten
pub mod Cleared
pub mod Tasks
pub mod Handlers
pub mod Actions
pub mod Netmask
pub mod Current
pub mod Entries
pub mod Kept
pub mod Twice
pub mod Frame
