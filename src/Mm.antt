-- ===== src/Mm.antt =====
-- mm/main.c and mm/forkexit.c: the memory of processes and `do_fork`, up to its messages. An int is
-- its 32-bit pattern.
pub mod Alloc
pub mod Fork
mod Tests
use osin32bits.Base.{
  ℕ, zero, suc, ◌+◌, ◌-◌, ◌*◌, ◌/◌, ◌%◌, ◌^◌, Bool, not, ◌&&◌, Option, none, some, Run, ok, fault,
  panic, ◌>>=◌, ◌>>◌, assert, ◌==◌, ltb, leb, update, if◌then◌else◌, has_flag,
}
use osin32bits.Protect.{Descriptor, init_desc}
use osin32bits.Proc.Types.{nr_tasks, nr_procs, nr_native_procs, nr_slots, free_slot, Ipc, Kernel}

abbrev pub procs_base : ℕ
procs_base = 0xA00000

abbrev pub proc_image_size_default : ℕ
proc_image_size_default = 0x100000

-- `a < b` on ints.
abbrev pub slt : ℕ → ℕ → Bool
slt a b = ltb ((a + 2 ^ 31) % 2 ^ 32) ((b + 2 ^ 31) % 2 ^ 32)

-- `alloc_mem`
unfoldable pub alloc_mem : (memory_size pid memsize : ℕ) → Run ℕ
alloc_mem memory_size pid memsize = do
  assert (leb (nr_tasks + nr_native_procs) pid)
  let base = procs_base + (pid - (nr_tasks + nr_native_procs)) * proc_image_size_default
  if slt proc_image_size_default memsize
      then fault panic
      else (if slt ((base + memsize) % 2 ^ 32) memory_size then ok base else fault panic)

-- The state that `do_fork` reads and writes: the table, the columns `ldts[INDEX_LDT_C]` and
-- `p_parent`, and the bytes of memory by linear address.
pub record Mm : Type 0 where
  pub kernel : Kernel
  pub ldt_c : ℕ → Descriptor
  pub p_parent : ℕ → ℕ
  pub memory_size : ℕ
  pub memory : ℕ → ℕ

-- The first free slot of the `n` slots from `i` on; `i + n` if there is none.
unfoldable pub find_free : (ℕ → Ipc) → (n i : ℕ) → ℕ
find_free f zero i = i
find_free f (suc n) i = if (f i).p_flags == free_slot then i else find_free f n (i + 1)

-- `reassembly`
abbrev pub reassembly : (high high_shift mid mid_shift low : ℕ) → ℕ
reassembly high high_shift mid mid_shift low =
    (high * 2 ^ high_shift + mid * 2 ^ mid_shift + low) % 2 ^ 32

-- `(limit + 1) * (granularity ? 4096 : 1)`, an int.
abbrev pub segment_size : Descriptor → (limit : ℕ) → ℕ
segment_size d limit = (limit + 1) * (if has_flag d.limit_high_attr2 0x80 then 4096 else 1) % 2 ^ 32

-- `phys_copy` of `n` bytes, to a part of memory that does not overlap the other.
abbrev pub copy_image : (memory : ℕ → ℕ) → (to from n : ℕ) → ℕ → ℕ
copy_image memory to from n a =
    if leb to a && ltb a (to + n) then memory (from + (a - to)) else memory a

-- A child, with the state after it is made and its image is copied, and the part of memory that it is
-- copied from.
pub record Forked : Type 0 where
  pub child_pid : ℕ
  pub mm : Mm
  pub child_base : ℕ
  pub caller_base : ℕ
  pub size : ℕ

-- The entry of the child: that of the parent, with its own segments.
unfoldable pub child_entry : Mm → (pid child_pid child_base : ℕ) → Mm
child_entry m pid child_pid child_base =
    let limit = (proc_image_size_default - 1) / 2 ^ 12 in
    record m {
      kernel = record m.kernel {
        ipc = update m.kernel.ipc child_pid (m.kernel.ipc pid);
        sched = update m.kernel.sched child_pid (m.kernel.sched pid);
        ldt_rw = update m.kernel.ldt_rw child_pid (init_desc child_base limit 0xC0F2);
      };
      ldt_c = update m.ldt_c child_pid (init_desc child_base limit 0xC0F8);
      p_parent = update m.p_parent child_pid pid;
    }

-- `do_fork`, for the source of its message, up to the messages it sends; `none` is -1.
unfoldable pub do_fork : Mm → (pid : ℕ) → Run (Option Forked)
do_fork m pid =
    let i = find_free m.kernel.ipc nr_slots 0 in
    do
      assert (leb (nr_tasks + nr_native_procs) i)
      if i == nr_slots then ok none else (do
        let c = m.ldt_c pid
        let caller_t_base = reassembly c.base_high 24 c.base_mid 16 c.base_low
        let caller_t_limit = reassembly 0 0 (c.limit_high_attr2 % 2 ^ 4) 16 c.limit_low
        let caller_t_size = segment_size c caller_t_limit
        let d = m.kernel.ldt_rw pid
        let caller_d_s_base = reassembly d.base_high 24 d.base_mid 16 d.base_low
        let caller_d_s_limit = reassembly (d.limit_high_attr2 % 2 ^ 4) 16 0 0 d.limit_low
        let caller_d_s_size = segment_size d caller_t_limit
        assert (
            caller_t_base == caller_d_s_base
            && (caller_t_limit == caller_d_s_limit)
            && (caller_t_size == caller_d_s_size))
        child_base ← alloc_mem m.memory_size i caller_t_size
        ok (
            some (record {
              child_pid = i;
              mm = record (child_entry m pid i child_base) {
                memory = copy_image m.memory child_base caller_t_base caller_t_size;
              };
              child_base = child_base;
              caller_base = caller_t_base;
              size = caller_t_size;
            })))
