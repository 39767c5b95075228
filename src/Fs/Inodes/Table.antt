-- ===== src/Fs/Inodes/Table.antt =====
-- fs/main.c `get_inode`: an inode stands in at most one slot of the table.
use osin32bits.Base.{
  ℕ, zero, suc, ◌+◌, ◌<◌, ◌≡◌, refl, ◌≢◌, inl, inr, Option, none, some, Bool, true, false, not,
  ◌&&◌, Run, ok, fault, panic, arith, ◌==◌, update, Bool-cases,
}
use osin32bits.Fs.Types.{nr_inode, Inode, SuperBlock, Fs}
use osin32bits.Fs.Sectors.{rd_sect}
use osin32bits.Fs.Inodes.{
  Slot, cached, free, full, slot_of, first_of, find_inode, set_inode, get_super_block, load_inode,
  inode_block, read_inode, get_inode,
}

-- The slot is in use for the inode `num` of `dev`.
abbrev pub holds : Inode → (dev num : ℕ) → Bool
holds r dev num = not (r.i_cnt == 0) && (r.i_dev == dev && (r.i_num == num))

-- What the search finds, of the slots below `top`.
pub data Found (t : ℕ → Inode) (dev num top : ℕ) : Slot → Type 0 where
  is_cached : (p : ℕ) → p < top → holds (t p) dev num ≡ true → Found t dev num top (cached p)
  is_free :
      (p : ℕ)
      → p < top
      → (t p).i_cnt ≡ 0
      → ((j : ℕ) → j < top → holds (t j) dev num ≡ false)
      → Found t dev num top (free p)
  is_full :
      ((j : ℕ) → j < top → (t j).i_cnt ≢ 0)
      → ((j : ℕ) → j < top → holds (t j) dev num ≡ false)
      → Found t dev num top full

-- What the slots below `i` have shown.
data Passed (t : ℕ → Inode) (i : ℕ) : Option ℕ → Type 0 where
  no_free : ((j : ℕ) → j < i → (t j).i_cnt ≢ 0) → Passed t i none
  first_free : (q : ℕ) → q < i → (t q).i_cnt ≡ 0 → Passed t i (some q)

below_suc : (P : ℕ → Type 0) (i : ℕ) → ((j : ℕ) → j < i → P j) → P i → (j : ℕ) → j < i + 1 → P j
below_suc P i h here j lt = elim (Bool-cases (j == i)) [
  | inl e ↦ let same : j ≡ i = ground arith in rw same here
  | inr e ↦ h j (ground arith)
]

Passed-live :
    {t : ℕ → Inode} {i : ℕ} {q : Option ℕ} → (t i).i_cnt ≢ 0 → Passed t i q → Passed t (i + 1) q
Passed-live {t} {i} live (no_free h) = no_free (below_suc (λ j. (t j).i_cnt ≢ 0) i h live)
Passed-live live (first_free q lt e) = first_free q (omega arith) e

Passed-dead :
    {t : ℕ → Inode} {i : ℕ} {q : Option ℕ}
    → (t i).i_cnt ≡ 0
    → Passed t i q
    → Passed t (i + 1) (first_of q i)
Passed-dead {i} dead (no_free h) = first_free i (omega arith) dead
Passed-dead dead (first_free q lt e) = first_free q (omega arith) e

find_inode-end :
    {t : ℕ → Inode} {dev num top : ℕ} {q : Option ℕ}
    → Passed t top q
    → ((j : ℕ) → j < top → holds (t j) dev num ≡ false)
    → Found t dev num top (slot_of q)
find_inode-end (no_free h) b = is_full h b
find_inode-end (first_free q lt e) b = is_free q lt e b

find_inode-Found :
    (t : ℕ → Inode) (dev num n i : ℕ) (q : Option ℕ) (top : ℕ)
    → i + n ≡ top
    → Passed t i q
    → ((j : ℕ) → j < i → holds (t j) dev num ≡ false)
    → Found t dev num top (find_inode t dev num n i q)
unfolding find_inode
find_inode-Found t dev num zero i q top e a b =
    let at_end : i ≡ top = omega arith in find_inode-end (rw (← at_end) a) (rw (← at_end) b)
find_inode-Found t dev num (suc n) i q top e a b = elim (Bool-cases (holds (t i) dev num)) [
  | inl here ↦
      let live : (not ((t i).i_cnt == 0)) ≡ true = ground arith in
      let match : ((t i).i_dev == dev && ((t i).i_num == num)) ≡ true = ground arith in
      rw (live, match) (is_cached i (omega arith) here)
  | inr not_here ↦
      let b' = below_suc (λ j. holds (t j) dev num ≡ false) i b not_here in
      elim (Bool-cases (not ((t i).i_cnt == 0))) [
        | inl live ↦
            let no_match : ((t i).i_dev == dev && ((t i).i_num == num)) ≡ false = ground arith in
            rw (live, no_match)
              (find_inode-Found t dev num n (i + 1) q top (omega arith)
                (Passed-live (ground arith) a) b')
        | inr dead ↦ rw dead (
            find_inode-Found t dev num n (i + 1) (first_of q i) top (omega arith)
              (Passed-dead (ground arith) a) b')
      ]
]

-- No inode stands in two slots of the table.
abbrev pub IsUnique : (ℕ → Inode) → Type 0
IsUnique t =
    (p q dev num : ℕ)
    → p < nr_inode
    → q < nr_inode
    → holds (t p) dev num ≡ true
    → holds (t q) dev num ≡ true
    → p ≡ q

update-IsUnique :
    (t : ℕ → Inode) (p : ℕ) (r : Inode)
    → IsUnique t
    → ((d n : ℕ) → holds r d n ≡ true → (j : ℕ) → j < nr_inode → holds (t j) d n ≡ true → j ≡ p)
    → IsUnique (update t p r)
update-IsUnique t p r u only x y d n hx hy a b = elim (Bool-cases (x == p)) [
  | inl e ↦ elim (Bool-cases (y == p)) [
    | inl f ↦ ground arith
    | inr f ↦ ground (arith, only d n (rw e at a) y hy (rw f at b))
  ]
  | inr e ↦ elim (Bool-cases (y == p)) [
    | inl f ↦ ground (arith, only d n (rw f at b) x hx (rw e at a))
    | inr f ↦ u x y d n hx hy (rw e at a) (rw f at b)
  ]
]

-- The outcomes of `get_inode` for an inode number that is not 0.
pub data Got (s : Fs) (dev num : ℕ) : Run (Option ℕ × Fs) → Type 0 where
  -- It is in the table: one more user.
  shared :
      (p : ℕ)
      → p < nr_inode
      → holds (s.inode_table p) dev num ≡ true
      → (t : Fs)
      → t ≡ set_inode s p (record (s.inode_table p) { i_cnt = (s.inode_table p).i_cnt + 1 })
      → IsUnique t.inode_table
      → Got s dev num (ok (some p, t))
  -- It is not, and goes to a free slot.
  loaded :
      (p : ℕ)
      → p < nr_inode
      → (s.inode_table p).i_cnt ≡ 0
      → ((j : ℕ) → j < nr_inode → holds (s.inode_table j) dev num ≡ false)
      → (sb : SuperBlock) → get_super_block s dev ≡ ok sb
      → (t : Fs)
      → t
        ≡ set_inode (rd_sect s dev (inode_block sb num)) p (
            load_inode
              (rd_sect s dev (inode_block sb num)).fsbuf
              num
              (record (s.inode_table p) { i_dev = dev; i_num = num; i_cnt = 1 }))
      → IsUnique t.inode_table
      → Got s dev num (ok (some p, t))
  -- It is not, and every slot is in use.
  no_slot :
      ((j : ℕ) → j < nr_inode → (s.inode_table j).i_cnt ≢ 0)
      → ((j : ℕ) → j < nr_inode → holds (s.inode_table j) dev num ≡ false)
      → Got s dev num (fault panic)

-- For a number other than 0 on a device with a super block, while no inode stands in two slots,
-- `get_inode` shares the slot that holds the inode, or loads the inode into a free slot if none does,
-- and no inode stands in two slots after it; it panics only if every slot is in use.
pub get_inode-Got :
    (s : Fs) (dev num : ℕ) (sb : SuperBlock)
    → IsUnique s.inode_table
    → num ≢ 0
    → get_super_block s dev ≡ ok sb
    → Got s dev num (get_inode s dev num)
unfolding get_inode read_inode rd_sect
get_inode-Got s dev num sb u ne has_sb =
    let some_num : (num == 0) ≡ false = ground arith in
    rw some_num (
      by_slot (
        find_inode-Found s.inode_table dev num nr_inode 0 none nr_inode (omega arith)
          (no_free (λ j h. absurd (omega arith))) (λ j h. absurd (omega arith))))
  where
    by_slot :
        {r : Slot}
        → Found s.inode_table dev num nr_inode r
        → Got s dev num (elim r [
          | cached x ↦
              let y = s.inode_table x in
              ok (some x, set_inode s x (record y { i_cnt = y.i_cnt + 1 }))
          | free q ↦ read_inode s dev num q
          | full ↦ fault panic
        ])
    by_slot (is_cached p h e) =
        shared p h e _ refl (
          update-IsUnique s.inode_table p _ u
            (λ d n a j lt b. u j p d n lt h b (ground (arith, e))))
    by_slot (is_free p h e none_else) = rw has_sb (
        loaded p h e none_else sb has_sb _ refl (
          update-IsUnique s.inode_table p _ u
            (λ d n a j lt b. absurd (ground (arith, none_else j)))))
    by_slot (is_full live none_else) = no_slot live none_else
