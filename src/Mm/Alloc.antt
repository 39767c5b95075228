-- ===== src/Mm/Alloc.antt =====
-- mm/main.c: what `alloc_mem` gives to different processes does not meet.
use osin32bits.Base.{
  ℕ, ◌+◌, ◌-◌, ◌*◌, ◌%◌, ◌^◌, ◌≤◌, ◌<◌, ◌≡◌, inl, inr, true, false, ok, fault, panic, assertion,
  arith, sym, leb, Bool-cases,
}
use osin32bits.Proc.Types.{nr_slots}
use osin32bits.Mm.{procs_base, proc_image_size_default, slt, alloc_mem}

-- For an image of at most the default size that fits under `memory_size`, an int that is not
-- negative: the base of the process, from which the image ends below the memory's end.
pub alloc_mem-fits :
    (memory_size pid memsize : ℕ)
    → 8 ≤ pid
    → pid < nr_slots
    → memsize ≤ proc_image_size_default
    → procs_base + (pid - 8) * proc_image_size_default + memsize < memory_size
    → memory_size < 2 ^ 31
    → alloc_mem memory_size pid memsize ≡ ok (procs_base + (pid - 8) * proc_image_size_default)
unfolding alloc_mem
alloc_mem-fits memory_size pid memsize low high small fits h =
    let in_range : leb 8 pid ≡ true = ground arith in
    let not_big : slt proc_image_size_default memsize ≡ false = ground arith in
    let enough : slt ((procs_base + (pid - 8) * proc_image_size_default + memsize) % 2 ^ 32)
          memory_size
        ≡ true =
      ground arith in
    rw (in_range, not_big, enough)

-- What a base that `alloc_mem` returns says.
record Allocated (memory_size pid memsize base : ℕ) : Type 0 where
  low : 8 ≤ pid
  is : base ≡ procs_base + (pid - 8) * proc_image_size_default
  small : memsize ≤ proc_image_size_default
  fits : base + memsize < memory_size

ok-injective : {a b : ℕ} → ok a ≡ ok b → a ≡ b
ok-injective e = cc

alloc_mem-Allocated :
    (memory_size pid memsize base : ℕ)
    → pid < nr_slots
    → memsize < 2 ^ 31
    → memory_size < 2 ^ 31
    → alloc_mem memory_size pid memsize ≡ ok base
    → Allocated memory_size pid memsize base
unfolding alloc_mem
alloc_mem-Allocated memory_size pid memsize base h g k run = elim (Bool-cases (leb 8 pid)) [
  | inr e ↦ let wrong : fault assertion ≡ ok base = rw e at run in cc
  | inl low ↦ elim (Bool-cases (slt proc_image_size_default memsize)) [
    | inl e ↦ let wrong : fault panic ≡ ok base = rw (low, e) at run in cc
    | inr small ↦
        elim (Bool-cases (
          slt ((procs_base + (pid - 8) * proc_image_size_default + memsize) % 2 ^ 32)
            memory_size)) [
              | inr e ↦ let wrong : fault panic ≡ ok base = rw (low, small, e) at run in cc
              | inl fits ↦
                  let same : procs_base + (pid - 8) * proc_image_size_default ≡ base =
                    ok-injective (rw (low, small, fits) at run) in
                  record {
                    low = ground arith;
                    is = sym same;
                    small = ground arith;
                    fits = ground arith;
                  }
            ]
  ]
]

-- If `alloc_mem` gives memory to two processes, for sizes and a memory size that are not negative
-- ints, the two images do not meet, lie above the base of all, and end below the end of the memory.
pub alloc_mem-disjoint :
    (memory_size p q size_p size_q base_p base_q : ℕ)
    → p < q
    → q < nr_slots
    → size_p < 2 ^ 31
    → size_q < 2 ^ 31
    → memory_size < 2 ^ 31
    → alloc_mem memory_size p size_p ≡ ok base_p
    → alloc_mem memory_size q size_q ≡ ok base_q
    → (procs_base ≤ base_p) × (base_p + size_p ≤ base_q) × (base_q + size_q < memory_size)
alloc_mem-disjoint memory_size p q size_p size_q base_p base_q h g a b c run_p run_q =
    let u = alloc_mem-Allocated memory_size p size_p base_p (omega arith) a c run_p in
    let v = alloc_mem-Allocated memory_size q size_q base_q g b c run_q in
    (omega (arith, u.is), omega (arith, u.is, u.small, u.low, v.is), v.fits)
