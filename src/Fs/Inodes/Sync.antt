-- ===== src/Fs/Inodes/Sync.antt =====
-- fs/main.c `sync_inode`: what is written to the disk is what `get_inode` reads.
use osin32bits.Base.{
  ℕ, ◌+◌, ◌*◌, ◌≤◌, ◌<◌, ◌≡◌, refl, ◌∙◌, ◌≢◌, ◌⊎◌, inl, inr, ok, arith, ◌==◌, Bool-cases,
}
use osin32bits.Fs.Types.{sector_size, Inode, SuperBlock, Fs}
use osin32bits.Fs.Sectors.{
  rd_sect, wr_sect, rd_sect-wr_sect_self, rd_sect-wr_sect_other, rd_sect-disk, disk-rd_sect,
  inode_table-rd_sect, inode_table-wr_sect,
}
use osin32bits.Fs.Inodes.{
  get_super_block, inode_block, inode_offset, load_inode, store_inode, sync_inode,
}
use osin32bits.Fs.Inodes.Stored.{
  IsStorable, stored, load_inode-cong, load_inode-store_inode, store_inode-other,
}

-- Places of two inodes in one sector do not overlap.
inode_offset-apart :
    (sb : SuperBlock) (n m i : ℕ)
    → 0 < n
    → 0 < m
    → n ≢ m
    → inode_block sb n ≡ inode_block sb m
    → inode_offset n ≤ i
    → i < inode_offset n + 16
    → (i < inode_offset m) ⊎ (inode_offset m + 16 ≤ i)
inode_offset-apart sb n m i hn hm ne e l u = ground arith

-- The write of one inode, with the read of its sector before.
abbrev written : Fs → Inode → (blk : ℕ) → Fs
written s r blk =
    let t = rd_sect s r.i_dev blk in
    wr_sect (record t { fsbuf = store_inode t.fsbuf r }) r.i_dev blk

written_self :
    (s : Fs) (r x : Inode) (blk : ℕ)
    → IsStorable r
    → load_inode (rd_sect (written s r blk) r.i_dev blk).fsbuf r.i_num x ≡ stored r x
written_self s r x blk v =
    let t = rd_sect s r.i_dev blk in
    let back = rd_sect-wr_sect_self (record t { fsbuf = store_inode t.fsbuf r }) r.i_dev blk in
    rw back (load_inode-store_inode t.fsbuf r x v)

written-other :
    (s : Fs) (r x : Inode) (sb : SuperBlock) (num : ℕ)
    → 0 < num
    → 0 < r.i_num
    → num ≢ r.i_num
    → load_inode
        (rd_sect (written s r (inode_block sb r.i_num)) r.i_dev (inode_block sb num)).fsbuf
        num
        x
      ≡ load_inode (rd_sect s r.i_dev (inode_block sb num)).fsbuf num x
written-other s r x sb num hn hr ne =
    let t = rd_sect s r.i_dev (inode_block sb r.i_num) in
    elim (Bool-cases (inode_block sb num == inode_block sb r.i_num)) [
      | inl same ↦
          let e : inode_block sb num ≡ inode_block sb r.i_num = ground arith in
          let back =
            rd_sect-wr_sect_self (record t { fsbuf = store_inode t.fsbuf r }) r.i_dev
              (inode_block sb r.i_num) in
          rw (e, back)
            (load_inode-cong (store_inode t.fsbuf r) t.fsbuf num x (λ i l u.
              store_inode-other t.fsbuf r i (inode_offset-apart sb num r.i_num i hn hr ne e l u)))
      | inr apart ↦ load_inode-cong _ _ num x (λ i l u.
          let lt : i < sector_size = omega arith in
          rd_sect-wr_sect_other (record t { fsbuf = store_inode t.fsbuf r }) r.i_dev
            (inode_block sb r.i_num) (inode_block sb num) i (ground arith) lt
          ∙ rd_sect-disk (record t { fsbuf = store_inode t.fsbuf r }) s r.i_dev (inode_block sb num)
              i (disk-rd_sect s r.i_dev (inode_block sb r.i_num)) lt)
    ]

-- On a device with a super block, for an inode whose fields are u32, `sync_inode` returns: after it the
-- disk gives back the inode, and every other inode of the device as before, and the table of inodes
-- is the same.
pub sync_inode-load_inode :
    (s : Fs) (p : ℕ) (sb : SuperBlock)
    → get_super_block s (s.inode_table p).i_dev ≡ ok sb
    → IsStorable (s.inode_table p)
    → (t : Fs) × (sync_inode s p ≡ ok t)
      × ((x : Inode)
          → load_inode
              (rd_sect t (s.inode_table p).i_dev (inode_block sb (s.inode_table p).i_num)).fsbuf
              (s.inode_table p).i_num
              x
            ≡ stored (s.inode_table p) x)
      × ((num : ℕ) (x : Inode)
          → 0 < num
          → 0 < (s.inode_table p).i_num
          → num ≢ (s.inode_table p).i_num
          → load_inode (rd_sect t (s.inode_table p).i_dev (inode_block sb num)).fsbuf num x
            ≡ load_inode (rd_sect s (s.inode_table p).i_dev (inode_block sb num)).fsbuf num x)
      × (t.inode_table ≡ s.inode_table)
unfolding sync_inode
sync_inode-load_inode s p sb has_sb v = rw has_sb (
  _,
  refl,
  λ x. written_self s (s.inode_table p) x (inode_block sb (s.inode_table p).i_num) v,
  λ num x a b c. written-other s (s.inode_table p) x sb num a b c,
  inode_table-wr_sect _ _ _ ∙ inode_table-rd_sect s (s.inode_table p).i_dev _,
)

-- What `sync_inode` keeps: all but the buffer and one sector of the disk.
pub record HasSynced (s : Fs) (dev blk : ℕ) (t : Fs) : Type 0 where
  pub inode_table : t.inode_table ≡ s.inode_table
  pub f_desc_table : t.f_desc_table ≡ s.f_desc_table
  pub filp : t.filp ≡ s.filp
  pub super_block : t.super_block ≡ s.super_block
  pub root_inode : t.root_inode ≡ s.root_inode
  pub disk :
      (d p : ℕ)
      → ((d ≢ dev) ⊎ ((p < blk * sector_size) ⊎ ((blk + 1) * sector_size ≤ p)))
      → t.disk d p ≡ s.disk d p

pub sync_inode-HasSynced :
    (s : Fs) (p : ℕ) (r : Inode) (sb : SuperBlock)
    → s.inode_table p ≡ r
    → get_super_block s r.i_dev ≡ ok sb
    → (t : Fs) × (sync_inode s p ≡ ok t) × HasSynced s r.i_dev (inode_block sb r.i_num) t
unfolding sync_inode rd_sect wr_sect
sync_inode-HasSynced s p r sb here has_sb =
    rw (here, has_sb)
      (
        _,
        refl,
        record {
          inode_table = refl;
          f_desc_table = refl;
          filp = refl;
          super_block = refl;
          root_inode = refl;
          disk = λ d x h. ground arith;
        },
      )
