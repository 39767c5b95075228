-- ===== src/Mm/Tests.antt =====
-- A fork by the process in slot 7, whose segments are flat, as those of `Init` are: the size of its
-- image, 2 ^ 32, is 0 as an int.
use osin32bits.Base.{ℕ, ◌+◌, ◌≤◌, ◌<◌, ◌≡◌, ◌%◌, inl, refl, some, ok, arith, ltb, if◌then◌else◌}
use osin32bits.Protect.{init_desc}
use osin32bits.Proc.Types.{reset_msg}
use osin32bits.Proc.Boot.{zero_ipc, zero_sched}
use osin32bits.Mm.{procs_base, Mm, alloc_mem, do_fork}
use osin32bits.Mm.Alloc.{alloc_mem-disjoint}
use osin32bits.Mm.Fork.{FirstFree, IsChild, do_fork-IsChild}

abbrev state : (used : ℕ) → Mm
state used = record {
  kernel = record {
    ipc = λ i. if ltb i used then zero_ipc else record zero_ipc { p_flags = 32 };
    sched = λ _. zero_sched;
    ldt_rw = λ _. init_desc 0 0xFFFFF 0xC0F2;
    kernel_ds = init_desc 0 0xFFFFF 0xC092;
    mem = λ _. reset_msg;
    p_proc_ready = 0;
    ticks = 0;
    k_reenter = 0;
    key_pressed = 0;
  };
  ldt_c = λ _. init_desc 0 0xFFFFF 0xC0F8;
  p_parent = λ _. 57;
  memory_size = 0x2000000;
  memory = λ a. a % 256;
}

eight-FirstFree : FirstFree (state 8).kernel.ipc 8
eight-FirstFree = record { free = refl; before = λ i h. ground arith }

-- The process 7 has 16 pages from 0x500000 on.
abbrev parent : Mm
parent = record (state 8) {
  kernel = record (state 8).kernel { ldt_rw = λ _. init_desc 0x500000 15 0xC0F2 };
  ldt_c = λ _. init_desc 0x500000 15 0xC0F8;
}

do_fork-IsChild_example :
    (u : Mm) × (do_fork parent 7
      ≡ ok (
          some (record {
            child_pid = 8;
            mm = u;
            child_base = 0xA00000;
            caller_base = 0x500000;
            size = 0x10000;
          })))
    × IsChild parent 7 8 0xA00000 0x500000 0x10000 u
do_fork-IsChild_example =
    do_fork-IsChild parent 7 8 0x500000 15 0xC0F8 0xC0F2 eight-FirstFree (omega arith) (omega arith)
      refl refl (omega arith) (omega arith) (omega arith) (omega arith) (omega arith) (omega arith)
      (omega arith) (inl (omega arith))

alloc_mem-disjoint_example :
    (procs_base ≤ 0xA00000) × (0xA00000 + 0x100000 ≤ 0xB00000) × (0xB00000 + 0x8000 < 0x2000000)
unfolding alloc_mem
alloc_mem-disjoint_example =
    alloc_mem-disjoint 0x2000000 8 9 0x100000 0x8000 0xA00000 0xB00000 (omega arith) (omega arith)
      (omega arith) (omega arith) (omega arith) refl refl
