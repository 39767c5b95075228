-- ===== src/Proc/Types.antt =====
-- include/proc.h, include/type.h and include/const.h: the process table and the messages.
-- The table is held by columns: `(s.ipc i).p_flags` is `proc_table[i].p_flags`, and an index past
-- the table reads whatever lies there. A negative int is its 32-bit pattern.
use osin32bits.Base.{
  ℕ, ◌+◌, ◌-◌, ◌%◌, ◌^◌, not, ◌||◌, Option, Run, ok, ◌>>◌, assert, ◌==◌, ltb, update,
}
use osin32bits.Protect.{Descriptor, base_of}

abbrev pub nr_tasks : ℕ
nr_tasks = 5

abbrev pub nr_procs : ℕ
nr_procs = 32

abbrev pub nr_native_procs : ℕ
nr_native_procs = 3

-- NR_TASKS + NR_PROCS
abbrev pub nr_slots : ℕ
nr_slots = 37

abbrev pub sending : ℕ
sending = 0x02

abbrev pub receiving : ℕ
receiving = 0x04

abbrev pub free_slot : ℕ
free_slot = 0x20

abbrev pub interrupt : ℕ
interrupt = 2 ^ 32 - 10

abbrev pub any : ℕ
any = 47

abbrev pub no_task : ℕ
no_task = 57

abbrev pub hard_int : ℕ
hard_int = 1

-- MESSAGE. Every macro of include/const.h that names a part of the union is a field of `mess3`.
pub record Message : Type 0 where
  pub source : ℕ
  pub type : ℕ
  pub m3i1 : ℕ
  pub m3i2 : ℕ
  pub m3i3 : ℕ
  pub m3i4 : ℕ
  pub m3l1 : ℕ
  pub m3l2 : ℕ
  pub m3p1 : ℕ
  pub m3p2 : ℕ

-- `reset_msg`
abbrev pub reset_msg : Message
reset_msg = record {
  source = 0;
  type = 0;
  m3i1 = 0;
  m3i2 = 0;
  m3i3 = 0;
  m3i4 = 0;
  m3l1 = 0;
  m3l2 = 0;
  m3p1 = 0;
  m3p2 = 0;
}

-- The columns of `struct proc` that message passing reads and writes. A pointer into the table is
-- an index, and a null pointer is `none`; `p_msg` is a virtual address, 0 if null.
pub record Ipc : Type 0 where
  pub p_flags : ℕ
  pub p_msg : ℕ
  pub p_recvfrom : ℕ
  pub p_sendto : ℕ
  pub has_int_msg : ℕ
  pub q_sending : Option ℕ
  pub next_sending : Option ℕ

-- The columns that the scheduler and the clock write.
pub record Sched : Type 0 where
  pub ticks : ℕ
  pub priority : ℕ

-- `mem` holds the messages by the linear address of their first byte; `ldt_rw` is the column
-- `ldts[INDEX_LDT_RW]`, and `kernel_ds` is `gdt[SELECTOR_KERNEL_DS >> 3]`.
pub record Kernel : Type 0 where
  pub ipc : ℕ → Ipc
  pub sched : ℕ → Sched
  pub ldt_rw : ℕ → Descriptor
  pub kernel_ds : Descriptor
  pub mem : ℕ → Message
  pub p_proc_ready : ℕ
  pub ticks : ℕ
  pub k_reenter : ℕ
  pub key_pressed : ℕ

-- `ldt_seg_linear(p, INDEX_LDT_RW)`
unfoldable pub ldt_seg_linear : Kernel → ℕ → ℕ
ldt_seg_linear s pid = base_of (s.ldt_rw pid)

-- `va2la`: the segments of the tasks and of the native processes start at 0.
unfoldable pub va2la : Kernel → ℕ → ℕ → Run ℕ
va2la s pid va = do
  let la = (ldt_seg_linear s pid + va) % 2 ^ 32
  assert (not (ltb pid (nr_tasks + nr_native_procs)) || (la == va % 2 ^ 32))
  ok la

-- `phys_copy(dst, src, sizeof(MESSAGE))`
abbrev pub copy_message : Kernel → (dst src : ℕ) → Kernel
copy_message s dst src = record s { mem = update s.mem dst (s.mem src) }

-- A write to columns of one process.
abbrev pub set_ipc : Kernel → ℕ → Ipc → Kernel
set_ipc s p r = record s { ipc = update s.ipc p r }
