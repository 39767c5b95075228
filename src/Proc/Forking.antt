-- ===== src/Proc/Forking.antt =====
-- mm/forkexit.c `do_fork`: what its new entry does to the invariant of message passing.
use osin32bits.Base.{
  ℕ, ◌+◌, ◌≤◌, ◌<◌, ◌≡◌, refl, subst, none, some, Option, Run, Fault, ok, fault, ◌>>=◌, Bool,
  if◌then◌else◌, false, true, List, arith, ◌==◌, ◌%◌, ◌^◌, ◌&&◌, assert, leb, update, Bool-cases,
  inl, inr,
}
use osin32bits.Proc.Types.{
  nr_slots, nr_tasks, nr_native_procs, receiving, free_slot, interrupt, Kernel, ldt_seg_linear,
}
use osin32bits.Proc.Waits.{waits}
use osin32bits.Proc.Inv.{Status, SameLinks, Inv-SameLinks}
use osin32bits.Proc.System.{WellFormed}
use osin32bits.Mm.{
  Mm, Forked, child_entry, do_fork, find_free, reassembly, segment_size, alloc_mem, copy_image,
}

-- What `do_fork` returns, if it returns a child.
data Made (m : Mm) (pid : ℕ) : Run (Option Forked) → Type 0 where
  child :
      (f : Forked)
      → f.mm.kernel ≡ (child_entry m pid f.child_pid f.child_base).kernel
      → Made m pid (ok (some f))
  full : Made m pid (ok none)
  failed : (e : Fault) → Made m pid (fault e)

module _ (m : Mm) (pid : ℕ) where
  >>=-Made :
      {A : Type 0} (r : Run A) {k : A → Run (Option Forked)}
      → ((x : A) → Made m pid (k x))
      → Made m pid (r >>= k)
  >>=-Made (ok x) h = h x
  >>=-Made (fault e) h = failed e

  if-Made :
      (b : Bool) {r r' : Run (Option Forked)}
      → Made m pid r
      → Made m pid r'
      → Made m pid (if b then r else r')
  if-Made true h h' = h
  if-Made false h h' = h'

  do_fork-Made : Made m pid (do_fork m pid)
  unfolding do_fork child_entry
  do_fork-Made =
      let i = find_free m.kernel.ipc nr_slots 0 in
      let c = m.ldt_c pid in
      let d = m.kernel.ldt_rw pid in
      let base = reassembly c.base_high 24 c.base_mid 16 c.base_low in
      let limit = reassembly 0 0 (c.limit_high_attr2 % 2 ^ 4) 16 c.limit_low in
      let size = segment_size c limit in
      >>=-Made (assert (leb (nr_tasks + nr_native_procs) i)) (λ _. if-Made (i == nr_slots) full (
        >>=-Made
          (assert (
            base == reassembly d.base_high 24 d.base_mid 16 d.base_low
            && (limit == reassembly (d.limit_high_attr2 % 2 ^ 4) 16 0 0 d.limit_low)
            && (size == segment_size d limit)))
          (λ _. >>=-Made (alloc_mem m.memory_size i size) (λ child_base.
            child
              (record {
                child_pid = i;
                mm = record (child_entry m pid i child_base) {
                  memory = copy_image m.memory child_base base size;
                };
                child_base = child_base;
                caller_base = base;
                size = size;
              })
              refl))))

  from_Made :
      {r : Run (Option Forked)} (f : Forked)
      → Made m pid r
      → r ≡ ok (some f)
      → f.mm.kernel ≡ (child_entry m pid f.child_pid f.child_base).kernel
  from_Made f (child g made) e =
      let same : g ≡ f = cc in
      subst (λ x. x.mm.kernel ≡ (child_entry m pid x.child_pid x.child_base).kernel) same made
  from_Made f full e = cc
  from_Made f (failed _) e = cc

  pub do_fork-child_entry :
      (f : Forked)
      → do_fork m pid ≡ ok (some f)
      → f.mm.kernel ≡ (child_entry m pid f.child_pid f.child_base).kernel
  do_fork-child_entry f e = from_Made f do_fork-Made e

-- A process waits for the answer to a FORK, and nobody sends to it or to the free slot `j`.
pub record CanFork (s : Kernel) (pid j : ℕ) : Type 0 where
  pub parent_slot : pid < nr_slots
  pub user_slot : nr_tasks + nr_native_procs ≤ j
  pub slot : j < nr_slots
  pub is_free : (s.ipc j).p_flags ≡ free_slot
  pub waiting : (s.ipc pid).p_flags ≡ receiving
  pub parent_first : (s.ipc pid).q_sending ≡ none
  pub parent_next : (s.ipc pid).next_sending ≡ none
  pub first : (s.ipc j).q_sending ≡ none
  pub next : (s.ipc j).next_sending ≡ none

module _ (m : Mm) (q : ℕ → List ℕ) (v : WellFormed m.kernel q) (pid j base : ℕ)
    (c : CanFork m.kernel pid j) where
  forked-SameLinks : SameLinks m.kernel.ipc (update m.kernel.ipc j (m.kernel.ipc pid))
  forked-SameLinks = record {
    next = λ p. ground (arith, c.parent_next, c.next);
    first = λ p. ground (arith, c.parent_first, c.first);
  }

  forked-waits : (p : ℕ) → waits (update m.kernel.ipc j (m.kernel.ipc pid)) p ≡ waits m.kernel.ipc p
  forked-waits p = ground (arith, c.waiting, c.is_free)

  forked-Status : (p : ℕ) → p < nr_slots → Status (update m.kernel.ipc j (m.kernel.ipc pid) p)
  forked-Status p h = elim (Bool-cases (p == j)) [
    | inl e ↦ rw e (v.inv.status pid c.parent_slot)
    | inr e ↦ rw e (v.inv.status p h)
  ]

  pub child_entry-WellFormed : WellFormed (child_entry m pid j base).kernel q
  unfolding child_entry ldt_seg_linear
  child_entry-WellFormed = record {
    inv = Inv-SameLinks forked-SameLinks forked-waits forked-Status v.inv;
    flat =
        λ p h. let other : (p == j) ≡ false = ground (arith, c.user_slot) in rw other (v.flat p h);
    ready = v.ready;
    runs = ground (arith, v.runs, c.is_free);
    idler = ground (arith, v.idler, c.user_slot);
    priority = ground (arith, v.priority, c.user_slot);
    outside = rw (forked-waits interrupt) v.outside;
  }
