-- ===== src/Proc/Boot.antt =====
-- kernel/protect.c `init_prot` and kernel/main.c `kernel_main`: the process table at the start.
-- The register images, the names, the code segments and the empty file tables that the same loops
-- write are left out. The comparison of the name with "INIT" always differs: no name of
-- kernel/global.c is that string.
use osin32bits.Base.{
  ℕ, zero, suc, ◌+◌, ◌≡◌, refl, true, none, arith, ◌&&◌, ltb, leb, update, if◌then◌else◌,
}
use osin32bits.Protect.{Descriptor}
use osin32bits.Proc.Types.{
  nr_tasks, nr_native_procs, nr_slots, free_slot, no_task, Ipc, Sched, Kernel,
}

-- `memset(&proc_table[i], 0, sizeof(struct proc))`
abbrev pub zero_ipc : Ipc
zero_ipc = record {
  p_flags = 0;
  p_msg = 0;
  p_recvfrom = 0;
  p_sendto = 0;
  has_int_msg = 0;
  q_sending = none;
  next_sending = none;
}

abbrev pub zero_sched : Sched
zero_sched = record { ticks = 0; priority = 0 }

abbrev pub zero_descriptor : Descriptor
zero_descriptor = record {
  limit_low = 0;
  base_low = 0;
  base_mid = 0;
  attr1 = 0;
  limit_high_attr2 = 0;
  base_high = 0;
}

-- The loop of `init_prot` over the `n` slots from `i` on.
unfoldable pub clear_procs : (n i : ℕ) → Kernel → Kernel
clear_procs zero i s = s
clear_procs (suc n) i s = clear_procs n (i + 1) (record s {
  ipc = update s.ipc i zero_ipc;
  sched = update s.sched i zero_sched;
  ldt_rw = update s.ldt_rw i zero_descriptor;
})

-- PRIVILEGE_TASK processes have priority 100, and user processes 50.
abbrev pub prio_of : ℕ → ℕ
prio_of i = if ltb i nr_tasks then 100 else 50

-- `DA_DRW | priv << 5`, for PRIVILEGE_TASK and PRIVILEGE_USER.
abbrev pub attr_of : ℕ → ℕ
attr_of i = if ltb i nr_tasks then 0xB2 else 0xF2

abbrev pub idle_ipc : Ipc
idle_ipc = record {
  p_flags = 0;
  p_msg = 0;
  p_recvfrom = no_task;
  p_sendto = no_task;
  has_int_msg = 0;
  q_sending = none;
  next_sending = none;
}

-- The body of the loop of `kernel_main`.
abbrev pub init_proc : ℕ → Kernel → Kernel
init_proc i s =
    if leb (nr_tasks + nr_native_procs) i
    then record s { ipc = update s.ipc i (record (s.ipc i) { p_flags = free_slot }) }
    else record s {
      ipc = update s.ipc i idle_ipc;
      sched = update s.sched i (record { ticks = prio_of i; priority = prio_of i });
      ldt_rw = update s.ldt_rw i (record s.kernel_ds { attr1 = attr_of i });
    }

unfoldable pub init_procs : (n i : ℕ) → Kernel → Kernel
init_procs zero i s = s
init_procs (suc n) i s = init_procs n (i + 1) (init_proc i s)

-- `kernel_main`, after `init_prot`, up to `restart()`.
unfoldable pub kernel_main : Kernel → Kernel
kernel_main s = record (init_procs nr_slots 0 (clear_procs nr_slots 0 s)) {
  k_reenter = 0;
  ticks = 0;
  p_proc_ready = 0;
}

clear_procs_lem :
    (n i : ℕ) (s : Kernel) (j : ℕ)
    → ((clear_procs n i s).ipc j ≡ (if leb i j && ltb j (i + n) then zero_ipc else s.ipc j))
unfolding clear_procs
clear_procs_lem zero i s j = ground arith
clear_procs_lem (suc n) i s j = ground (
  arith,
  clear_procs_lem n (i + 1)
      (record s {
        ipc = update s.ipc i zero_ipc;
        sched = update s.sched i zero_sched;
        ldt_rw = update s.ldt_rw i zero_descriptor;
      })
      j,
)

-- What `kernel_main` writes to a slot.
abbrev pub started : ℕ → Ipc → Ipc
started i r =
    if leb (nr_tasks + nr_native_procs) i then record r { p_flags = free_slot } else idle_ipc

init_procs_lem :
    (n i : ℕ) (s : Kernel) (j : ℕ)
    → (init_procs n i s).ipc j ≡ (if leb i j && ltb j (i + n) then started j (s.ipc j) else s.ipc j)
unfolding init_procs
init_procs_lem zero i s j = ground arith
init_procs_lem (suc n) i s j = ground (arith, init_procs_lem n (i + 1) (init_proc i s) j)

init_procs-sched :
    (n i : ℕ) (s : Kernel) (j : ℕ)
    → (init_procs n i s).sched j ≡ (
        if leb i j && (ltb j (i + n) && ltb j (nr_tasks + nr_native_procs))
        then record { ticks = prio_of j; priority = prio_of j }
        else s.sched j)
unfolding init_procs
init_procs-sched zero i s j = ground arith
init_procs-sched (suc n) i s j = ground (arith, init_procs-sched n (i + 1) (init_proc i s) j)

pub kernel_main-ipc :
    (s : Kernel) (j : ℕ)
    → (kernel_main s).ipc j ≡ (if ltb j nr_slots then started j zero_ipc else s.ipc j)
unfolding kernel_main
kernel_main-ipc s j =
    ground (
      arith,
      init_procs_lem nr_slots 0 (clear_procs nr_slots 0 s) j,
      clear_procs_lem nr_slots 0 s j,
    )

pub kernel_main-priority :
    (s : Kernel) (j : ℕ)
    → ltb j (nr_tasks + nr_native_procs) ≡ true
    → ((kernel_main s).sched j).priority ≡ prio_of j
unfolding kernel_main
kernel_main-priority s j h =
    ground (arith, init_procs-sched nr_slots 0 (clear_procs nr_slots 0 s) j)

clear_procs-kernel_ds : (n i : ℕ) (s : Kernel) → (clear_procs n i s).kernel_ds ≡ s.kernel_ds
unfolding clear_procs
clear_procs-kernel_ds zero i s = refl
clear_procs-kernel_ds (suc n) i s = clear_procs-kernel_ds n (i + 1) _

init_procs-ldt_rw :
    (n i : ℕ) (s : Kernel) (j : ℕ)
    → (init_procs n i s).ldt_rw j ≡ (
        if leb i j && (ltb j (i + n) && ltb j (nr_tasks + nr_native_procs))
        then record s.kernel_ds { attr1 = attr_of j }
        else s.ldt_rw j)
unfolding init_procs
init_procs-ldt_rw zero i s j = ground arith
init_procs-ldt_rw (suc n) i s j = ground (arith, init_procs-ldt_rw n (i + 1) (init_proc i s) j)

pub kernel_main-ldt_rw :
    (s : Kernel) (j : ℕ)
    → ltb j (nr_tasks + nr_native_procs) ≡ true
    → (kernel_main s).ldt_rw j ≡ record s.kernel_ds { attr1 = attr_of j }
unfolding kernel_main
kernel_main-ldt_rw s j h = ground (
  arith,
  init_procs-ldt_rw nr_slots 0 (clear_procs nr_slots 0 s) j,
  clear_procs-kernel_ds nr_slots 0 s,
)

pub kernel_main-p_proc_ready : (s : Kernel) → (kernel_main s).p_proc_ready ≡ 0
unfolding kernel_main
kernel_main-p_proc_ready s = refl
