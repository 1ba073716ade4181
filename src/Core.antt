-- ===== src/Core.antt =====
-- "project_Android Kernel Scheduler/scheduler/sched/core.c": the scheduler core, as far as it deals
-- with one run queue. Locks, tracing, printk and statistics are left out, and so is CONFIG_SMP, which
-- the kernel's configuration does not set.
pub mod Bandwidth
pub mod Completion
pub mod Running
pub mod Load
pub mod Nice
pub mod Prio
pub mod Classes
pub mod Picking
pub mod Setscheduler
pub mod Fork
mod Tests
