-- ===== src/Kern.antt =====
-- kern/: the kernel. Its static variables are the fields of `Kern.State.Kernel`; the modules follow
-- the source files.
pub mod Kalloc
pub mod AddrSpace
pub mod State
pub mod Task
pub mod Scheduler
pub mod Ipc
pub mod Syscall
mod Tests
