-- ===== src/Tasks.antt =====
-- Tasks and lists of tasks: pkg/tasks.
pub mod Task
pub mod Runs
pub mod Stages
pub mod Action
pub mod Common
pub mod Resources
pub mod Plans
pub mod Encryption
pub mod Checks
pub mod Machines
pub mod Slots
pub mod Etcd
pub mod Ring
pub mod Schedule
pub mod Removals
