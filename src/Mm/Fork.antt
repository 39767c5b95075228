-- ===== src/Mm/Fork.antt =====
-- mm/forkexit.c: `do_fork` on a process whose two segments are the same part of memory.
use osin32bits.Base.{
  ℕ, zero, suc, ◌+◌, ◌-◌, ◌*◌, ◌/◌, ◌%◌, ◌^◌, ◌≤◌, ◌<◌, ◌≡◌, ◌≢◌, ◌⊎◌, refl, ==_ne, true, false,
  some, none, ok, arith, ◌==◌, leb, Bool-cases, inl, inr,
}
use osin32bits.Protect.{Descriptor, init_desc, base_of, base_of-init_desc}
use osin32bits.Proc.Types.{nr_slots, free_slot, Ipc, ldt_seg_linear}
use osin32bits.Mm.{
  procs_base, proc_image_size_default, Mm, find_free, reassembly, segment_size, copy_image,
  child_entry, do_fork,
}
use osin32bits.Mm.Alloc.{alloc_mem-fits}

-- `j` is the first free slot.
pub record FirstFree (f : ℕ → Ipc) (j : ℕ) : Type 0 where
  pub free : (f j).p_flags ≡ free_slot
  pub before : (i : ℕ) → i < j → ((f i).p_flags == free_slot) ≡ false

find_free_lem : (f : ℕ → Ipc) (n i j : ℕ) → i ≤ j → j < i + n → FirstFree f j → find_free f n i ≡ j
unfolding find_free
find_free_lem f zero i j a b h = absurd (omega arith)
find_free_lem f (suc n) i j a b h = elim (Bool-cases (i == j)) [
  | inl e ↦ ground (arith, h.free)
  | inr e ↦
      rw (h.before i (ground arith)) (find_free_lem f n (i + 1) j (ground arith) (omega arith) h)
]

-- The size that `do_fork` takes for a segment of `limit + 1` pages: an int.
abbrev pub image_size : ℕ → ℕ
image_size limit = (limit + 1) * 4096 % 2 ^ 32

module _ (base limit attribute : ℕ) (hb : base < 2 ^ 32) (hl : limit < 2 ^ 20)
    (ha : attribute / 2 ^ 15 % 2 ≡ 1) where
  reassembled_limit :
      reassembly 0 0
        ((init_desc base limit attribute).limit_high_attr2 % 2 ^ 4)
        16
        (init_desc base limit attribute).limit_low
      ≡ limit
  unfolding init_desc
  reassembled_limit = omega arith

  size_of-init_desc : segment_size (init_desc base limit attribute) limit ≡ image_size limit
  unfolding init_desc
  size_of-init_desc = ground arith

  reassembled_data_limit :
      reassembly
        ((init_desc base limit attribute).limit_high_attr2 % 2 ^ 4)
        16
        0
        0
        (init_desc base limit attribute).limit_low
      ≡ limit
  unfolding init_desc
  reassembled_data_limit = omega arith

-- The bytes that a segment has by its descriptor.
abbrev pub size_of : Descriptor → ℕ
size_of d = segment_size d ((d.limit_high_attr2 % 2 ^ 4) * 2 ^ 16 + d.limit_low)

size_of-image :
    (base attribute : ℕ)
    → attribute / 2 ^ 15 % 2 ≡ 1
    → size_of (init_desc base 255 attribute) ≡ proc_image_size_default
unfolding init_desc
size_of-image base attribute h = ground arith

-- The image of the child in slot `j`.
abbrev pub child_base_of : ℕ → ℕ
child_base_of j = procs_base + (j - 8) * proc_image_size_default

-- The child in slot `j` of the process `pid`: it waits for the same, runs on with the same ticks and
-- priority, and has its own code and data, user segments of the size of an image that start at `base`
-- and hold what the parent has at `from`. No other process changes.
pub record IsChild (m : Mm) (pid j base from size : ℕ) (u : Mm) : Type 0 where
  pub ipc : u.kernel.ipc j ≡ m.kernel.ipc pid
  pub sched : u.kernel.sched j ≡ m.kernel.sched pid
  pub parent : u.p_parent j ≡ pid
  pub code_base : base_of (u.ldt_c j) ≡ base
  pub data_base : ldt_seg_linear u.kernel j ≡ base
  pub code_size : size_of (u.ldt_c j) ≡ proc_image_size_default
  pub data_size : size_of (u.kernel.ldt_rw j) ≡ proc_image_size_default
  pub code_user : (u.ldt_c j).attr1 / 2 ^ 5 % 4 ≡ 3
  pub data_user : (u.kernel.ldt_rw j).attr1 / 2 ^ 5 % 4 ≡ 3
  pub executable : (u.ldt_c j).attr1 / 2 ^ 3 % 2 ≡ 1
  pub writable : (u.kernel.ldt_rw j).attr1 % 2 ^ 4 / 2 ≡ 1
  pub image : (k : ℕ) → k < size → u.memory (base + k) ≡ m.memory (from + k)
  pub other_memory : (a : ℕ) → ((a < base) ⊎ (base + size ≤ a)) → u.memory a ≡ m.memory a
  pub other_ipc : (i : ℕ) → i ≢ j → u.kernel.ipc i ≡ m.kernel.ipc i
  pub other_sched : (i : ℕ) → i ≢ j → u.kernel.sched i ≡ m.kernel.sched i
  pub other_parent : (i : ℕ) → i ≢ j → u.p_parent i ≡ m.p_parent i
  pub other_code : (i : ℕ) → i ≢ j → u.ldt_c i ≡ m.ldt_c i
  pub other_data : (i : ℕ) → i ≢ j → u.kernel.ldt_rw i ≡ m.kernel.ldt_rw i

child_entry-IsChild :
    (m : Mm) (pid j base from size : ℕ)
    → base < 2 ^ 32
    → IsChild m pid j base from size
        (record (child_entry m pid j base) { memory = copy_image m.memory base from size })
unfolding child_entry ldt_seg_linear
child_entry-IsChild m pid j base from size h =
    let here : (j == j) ≡ true = ground arith in
    record {
      ipc = rw here refl;
      sched = rw here refl;
      parent = rw here refl;
      code_base = rw here (base_of-init_desc base 255 0xC0F8 h);
      data_base = rw here (base_of-init_desc base 255 0xC0F2 h);
      code_size = rw here (size_of-image base 0xC0F8 (omega arith));
      data_size = rw here (size_of-image base 0xC0F2 (omega arith));
      code_user = rw here (unfold init_desc in refl);
      data_user = rw here (unfold init_desc in refl);
      executable = rw here (unfold init_desc in refl);
      writable = rw here (unfold init_desc in refl);
      image = λ k l. ground arith;
      other_memory = λ a o. ground arith;
      other_ipc = λ i ne. rw (==_ne i j ne) refl;
      other_sched = λ i ne. rw (==_ne i j ne) refl;
      other_parent = λ i ne. rw (==_ne i j ne) refl;
      other_code = λ i ne. rw (==_ne i j ne) refl;
      other_data = λ i ne. rw (==_ne i j ne) refl;
    }

-- `do_fork` for a parent whose two segments are `limit + 1` pages from the same base, when slot `j`
-- is the first free one, the image size, computed as an int, is at most the default, and the image
-- fits into the memory and does not overlap that of the parent: it takes slot `j`, and makes the child there, with that many bytes of the
-- image of the parent.
pub do_fork-IsChild :
    (m : Mm) (pid j base limit attr_c attr_rw : ℕ)
    → FirstFree m.kernel.ipc j
    → 8 ≤ j
    → j < nr_slots
    → m.ldt_c pid ≡ init_desc base limit attr_c
    → m.kernel.ldt_rw pid ≡ init_desc base limit attr_rw
    → base < 2 ^ 32
    → limit < 2 ^ 20
    → attr_c / 2 ^ 15 % 2 ≡ 1
    → attr_rw / 2 ^ 15 % 2 ≡ 1
    → image_size limit ≤ proc_image_size_default
    → child_base_of j + image_size limit < m.memory_size
    → m.memory_size < 2 ^ 31
    → ((base + image_size limit ≤ child_base_of j) ⊎ (child_base_of j + image_size limit ≤ base))
    → (u : Mm) × (do_fork m pid
        ≡ ok (
            some (record {
              child_pid = j;
              mm = u;
              child_base = child_base_of j;
              caller_base = base;
              size = image_size limit;
            })))
      × IsChild m pid j (child_base_of j) base (image_size limit) u
unfolding do_fork
do_fork-IsChild m pid j base limit attr_c attr_rw h low high c rw_seg hb hl hc hd small fits mem
      apart =
    let found = find_free_lem m.kernel.ipc nr_slots 0 j (omega arith) (omega arith) h in
    let in_range : leb 8 j ≡ true = ground arith in
    let some_slot : (j == nr_slots) ≡ false = ground arith in
    let same_base : (base == base) ≡ true = ground arith in
    let same_limit : (limit == limit) ≡ true = ground arith in
    let same_size : (image_size limit == image_size limit) ≡ true = ground arith in
    let given = alloc_mem-fits m.memory_size j (image_size limit) low high small fits mem in
    (
      record (child_entry m pid j (child_base_of j)) {
        memory = copy_image m.memory (child_base_of j) base (image_size limit);
      },
      rw
          (
            found,
            in_range,
            some_slot,
            c,
            rw_seg,
            base_of-init_desc base limit attr_c hb,
            base_of-init_desc base limit attr_rw hb,
            reassembled_limit base limit attr_c hb hl hc,
            reassembled_data_limit base limit attr_rw hb hl hd,
            size_of-init_desc base limit attr_c hb hl hc,
            size_of-init_desc base limit attr_rw hb hl hd,
            same_base,
            same_limit,
            same_size,
            given,
          )
          refl,
      child_entry-IsChild m pid j (child_base_of j) base (image_size limit) (omega arith),
    )

find_free-none :
    (f : ℕ → Ipc) (n i : ℕ)
    → ((j : ℕ) → j < i + n → ((f j).p_flags == free_slot) ≡ false)
    → find_free f n i ≡ i + n
unfolding find_free
find_free-none f zero i h = omega arith
find_free-none f (suc n) i h =
    rw (h i (omega arith))
      (ground (arith, find_free-none f n (i + 1) (λ j g. h j (omega (arith, g)))))

-- If no slot of the table is free, `do_fork` returns -1.
pub do_fork-full :
    (m : Mm) (pid : ℕ)
    → ((j : ℕ) → j < nr_slots → ((m.kernel.ipc j).p_flags == free_slot) ≡ false)
    → do_fork m pid ≡ ok none
unfolding do_fork
do_fork-full m pid h = rw (find_free-none m.kernel.ipc nr_slots 0 (λ j g. h j (omega (arith, g))))
