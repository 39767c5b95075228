-- ===== src/Proc.antt =====
-- kernel/proc.c: processes, scheduling and messages.
mod Tests
pub mod Types
pub mod Schedule
pub mod Ipc
pub mod Chain
pub mod Waits
pub mod Queues
pub mod Dequeue
pub mod Inv
pub mod Blocking
pub mod Enqueue
pub mod Send
pub mod Taking
pub mod Receive
pub mod Boot
pub mod Interrupt
pub mod System
pub mod Syscall
pub mod Tick
pub mod Forking
pub mod Reach
pub mod Sample
