-- ===== src/Fs/Inodes.antt =====
-- fs/main.c: the tables of super blocks and inodes.
pub mod Table
pub mod Stored
pub mod Sync
use osin32bits.Base.{
  ◌≡◌, refl, ℕ, zero, suc, ◌+◌, ◌-◌, ◌*◌, ◌/◌, ◌%◌, Option, none, some, Bool, not, ◌&&◌, Run, ok,
  fault, panic, ◌>>=◌, ◌>>◌, assert, ◌==◌, ltb, update, if◌then◌else◌,
}
use osin32bits.Fs.Types.{sector_size, inode_size, nr_inode, nr_super_block, Inode, SuperBlock, Fs}
use osin32bits.Fs.Sectors.{rd_sect, wr_sect, get32, put32}

-- A write to one slot of the table.
abbrev pub set_inode : Fs → ℕ → Inode → Fs
set_inode s p r = record s { inode_table = update s.inode_table p r }

-- The loop of `get_super_block` over the `n` slots from `i` on.
unfoldable pub find_super_block : (ℕ → SuperBlock) → (dev n i : ℕ) → Run SuperBlock
find_super_block t dev zero i = fault panic
find_super_block t dev (suc n) i =
    if (t i).sb_dev == dev then ok (t i) else find_super_block t dev n (i + 1)

unfoldable pub get_super_block : Fs → (dev : ℕ) → Run SuperBlock
unfolding find_super_block
get_super_block s dev = find_super_block s.super_block dev nr_super_block 0

-- What the loop of `get_inode` finds: the inode, or the first free slot, or neither.
pub data Slot : Type 0 where
  cached : ℕ → Slot
  free : ℕ → Slot
  full : Slot

abbrev pub slot_of : Option ℕ → Slot
slot_of none = full
slot_of (some q) = free q

abbrev pub first_of : Option ℕ → ℕ → Option ℕ
first_of none i = some i
first_of (some q) i = some q

unfoldable pub find_inode : (ℕ → Inode) → (dev num n i : ℕ) → Option ℕ → Slot
find_inode t dev num zero i q = slot_of q
find_inode t dev num (suc n) i q =
    let next = find_inode t dev num n (i + 1) q in
    let next_free = find_inode t dev num n (i + 1) (first_of q i) in
    if not ((t i).i_cnt == 0)
    then (if (t i).i_dev == dev && ((t i).i_num == num) then cached i else next)
    else next_free

-- The sector of an inode, and its place in the sector.
abbrev pub inode_block : SuperBlock → (num : ℕ) → ℕ
inode_block sb num =
    1 + 1 + sb.nr_imap_sects + sb.nr_smap_sects + (num - 1) / (sector_size / inode_size)

abbrev pub inode_offset : (num : ℕ) → ℕ
inode_offset num = (num - 1) % (sector_size / inode_size) * inode_size

-- The fields that a sector keeps of an inode.
abbrev pub load_inode : (ℕ → ℕ) → (num : ℕ) → Inode → Inode
load_inode b num r = record r {
  i_mode = get32 b (inode_offset num);
  i_size = get32 b (inode_offset num + 4);
  i_start_sect = get32 b (inode_offset num + 8);
  i_nr_sects = get32 b (inode_offset num + 12);
}

unfoldable pub store_inode : (ℕ → ℕ) → Inode → ℕ → ℕ
store_inode b r =
    let o = inode_offset r.i_num in
    put32 (put32 (put32 (put32 b o r.i_mode) (o + 4) r.i_size) (o + 8) r.i_start_sect) (o + 12)
      r.i_nr_sects

-- The slot `q` takes the inode from the disk.
unfoldable pub read_inode : Fs → (dev num q : ℕ) → Run (Option ℕ × Fs)
read_inode s dev num q = do
  let r = record (s.inode_table q) { i_dev = dev; i_num = num; i_cnt = 1 }
  sb ← get_super_block s dev
  let t = rd_sect s dev (inode_block sb num)
  ok (some q, set_inode t q (load_inode t.fsbuf num r))

unfoldable pub get_inode : Fs → (dev num : ℕ) → Run (Option ℕ × Fs)
get_inode s dev num =
    if num == 0 then ok (none, s) else elim (find_inode s.inode_table dev num nr_inode 0 none) [
      | cached p ↦
          let r = s.inode_table p in ok (some p, set_inode s p (record r { i_cnt = r.i_cnt + 1 }))
      | free q ↦ read_inode s dev num q
      | full ↦ fault panic
    ]

unfoldable pub put_inode : Fs → (p : ℕ) → Run Fs
put_inode s p = do
  let r = s.inode_table p
  assert (ltb 0 r.i_cnt)
  ok (set_inode s p (record r { i_cnt = r.i_cnt - 1 }))

unfoldable pub sync_inode : Fs → (p : ℕ) → Run Fs
sync_inode s p = do
  let r = s.inode_table p
  sb ← get_super_block s r.i_dev
  let t = rd_sect s r.i_dev (inode_block sb r.i_num)
  ok (wr_sect (record t { fsbuf = store_inode t.fsbuf r }) r.i_dev (inode_block sb r.i_num))

-- The super blocks are found in any state that has the same ones.
pub get_super_block-cong :
    (s t : Fs) (dev : ℕ)
    → t.super_block ≡ s.super_block
    → get_super_block t dev ≡ get_super_block s dev
unfolding get_super_block
get_super_block-cong s t dev e = rw e refl
