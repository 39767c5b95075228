-- ===== src/Fs/Create/Entry.antt =====
-- fs/open.c `new_dir_entry`: what it leaves on the disk.
use osin32bits.Base.{
  ℕ, ◌+◌, ◌-◌, ◌*◌, ◌/◌, ◌%◌, ◌^◌, ◌≤◌, ◌<◌, ◌≡◌, refl, ap, ◌∙◌, inl, inr, List, arith, length,
  true, ◌==◌, update, Bool-cases, ltb,
}
use osin32bits.Fs.Types.{sector_size, dir_entry_size, max_filename_len, Fs}
use osin32bits.Fs.Sectors.{
  wr_sect, get32-shift, rd_sect-bytes, disk-wr_sect_self, SameButBuffer, SameButBuffer-trans,
  rd_sect-SameButBuffer,
}
use osin32bits.Fs.Inodes.Sync.{HasSynced}
use osin32bits.Fs.Path.{buffer_of, entry_inode_nr, entry_name}
use osin32bits.Fs.Path.Entries.{entry_place}
use osin32bits.Fs.Create.{Place}
use osin32bits.Fs.Create.Free.{HasPlace}
use osin32bits.Fs.Create.Buffer.{with_entry, with_entry-number, with_entry-before, with_entry-name}

-- The directory in the slot `dir` after `new_dir_entry`: the entry `x` is new, and those before it
-- are as they were.
pub record HasEntry (s : Fs) (dir inode_nr : ℕ) (filename : List ℕ) (x : ℕ) (t : Fs) : Type 0 where
  pub size : ℕ
  pub grown : t.inode_table dir ≡ record (s.inode_table dir) { i_size = size }
  pub fits : x < size / dir_entry_size
  pub root : t.root_inode ≡ s.root_inode
  pub earlier :
      (p : ℕ)
      → (s.inode_table dir).i_start_sect * sector_size ≤ p
      → p < entry_place (s.inode_table dir).i_start_sect x
      → t.disk (s.inode_table dir).i_dev p ≡ s.disk (s.inode_table dir).i_dev p
  pub number :
      entry_inode_nr
        (t.disk (s.inode_table dir).i_dev)
        (entry_place (s.inode_table dir).i_start_sect x)
      ≡ inode_nr
  pub name :
      (i : ℕ)
      → i < max_filename_len
      → entry_name
          (t.disk (s.inode_table dir).i_dev)
          (entry_place (s.inode_table dir).i_start_sect x)
          i
        ≡ buffer_of filename i

module _ (s : Fs) (dir inode_nr x : ℕ) (filename : List ℕ) (p : Place)
    (at : HasPlace s
      (s.inode_table dir).i_dev
      (s.inode_table dir).i_start_sect
      ((s.inode_table dir).i_size / dir_entry_size)
      x
      p) where
  -- What `new_dir_entry` writes back.
  abbrev pub entered : Fs
  entered =
      let r = s.inode_table dir in
      let t = p.after in
      let size = (r.i_size + p.grows * dir_entry_size) % 2 ^ 32 in
      wr_sect
        (record t {
          inode_table = update t.inode_table dir (record r { i_size = size });
          fsbuf = with_entry t.fsbuf (p.entry * dir_entry_size) inode_nr filename;
        })
        r.i_dev p.sector

  after-SameButBuffer : SameButBuffer s p.after
  after-SameButBuffer =
      SameButBuffer-trans s at.before p.after at.same
        (rw at.after (rd_sect-SameButBuffer at.before (s.inode_table dir).i_dev p.sector))

  entered_self :
      (i : ℕ)
      → i < sector_size
      → entered.disk (s.inode_table dir).i_dev (p.sector * sector_size + i)
        ≡ with_entry p.after.fsbuf (p.entry * dir_entry_size) inode_nr filename i
  entered_self i h = disk-wr_sect_self _ (s.inode_table dir).i_dev p.sector i h

  after-bytes :
      (i : ℕ)
      → i < sector_size
      → p.after.fsbuf i ≡ s.disk (s.inode_table dir).i_dev (p.sector * sector_size + i)
  after-bytes i h =
      ap (λ (w : Fs). w.fsbuf i) at.after
      ∙ rd_sect-bytes at.before (s.inode_table dir).i_dev p.sector i h
      ∙ ap (λ (w : Fs). w.disk (s.inode_table dir).i_dev (p.sector * sector_size + i)) at.same

  entered-earlier :
      (q : ℕ)
      → q < p.sector * sector_size
      → entered.disk (s.inode_table dir).i_dev q ≡ s.disk (s.inode_table dir).i_dev q
  unfolding wr_sect
  entered-earlier q h =
      let same = ap (λ (w : Fs). w.disk (s.inode_table dir).i_dev q) after-SameButBuffer in
      ground (arith, same)

  entered-root_inode : entered.root_inode ≡ s.root_inode
  unfolding wr_sect
  entered-root_inode = ap (λ (w : Fs). w.root_inode) after-SameButBuffer

  pub entered-super_block : entered.super_block ≡ s.super_block
  unfolding wr_sect
  entered-super_block = ap (λ (w : Fs). w.super_block) after-SameButBuffer

  pub entered-inode_table : entered.inode_table dir ≡ record (s.inode_table dir) {
    i_size = ((s.inode_table dir).i_size + p.grows * dir_entry_size) % 2 ^ 32;
  }
  unfolding wr_sect
  entered-inode_table = let here : (dir == dir) ≡ true = ground arith in rw here refl

  in_sector :
      (i : ℕ)
      → entry_place (s.inode_table dir).i_start_sect x + i
        ≡ p.sector * sector_size + (p.entry * dir_entry_size + i)
  in_sector i = rw (at.sector, at.entry) (omega arith)

  -- After `sync_inode`, which writes in front of the directory.
  pub entered-HasEntry :
      (blk : ℕ) (t : Fs)
      → (s.inode_table dir).i_size + dir_entry_size < 2 ^ 32
      → inode_nr < 2 ^ 32
      → x ≤ (s.inode_table dir).i_size / dir_entry_size
      → blk < (s.inode_table dir).i_start_sect
      → ((i : ℕ)
          → length filename < i
          → i < max_filename_len
          → entry_name
              (s.disk (s.inode_table dir).i_dev)
              (entry_place (s.inode_table dir).i_start_sect x)
              i
            ≡ 0)
      → HasSynced entered (s.inode_table dir).i_dev blk t
      → HasEntry s dir inode_nr filename x t
  entered-HasEntry blk t small nr_small le front clear sync =
      let dev = (s.inode_table dir).i_dev in
      let blk0 = (s.inode_table dir).i_start_sect in
      let o = p.entry * dir_entry_size in
      let low : p.entry < 32 = rw at.entry (omega arith) in
      let kept : (q : ℕ) → blk0 * sector_size ≤ q → t.disk dev q ≡ entered.disk dev q =
        λ q l. sync.disk dev q (inr (inr (omega arith))) in
      let new : (i : ℕ)
          → i < dir_entry_size
          → t.disk dev (entry_place blk0 x + i)
            ≡ with_entry p.after.fsbuf o inode_nr filename (o + i) =
        λ i l.
          kept (entry_place blk0 x + i) (omega arith)
          ∙ ap (entered.disk dev) (in_sector i)
          ∙ entered_self (o + i) (omega arith) in
      record {
        size = ((s.inode_table dir).i_size + p.grows * dir_entry_size) % 2 ^ 32;
        grown = ap (λ f. f dir) sync.inode_table ∙ entered-inode_table;
        fits = rw at.grows (ground arith);
        root = sync.root_inode ∙ entered-root_inode;
        earlier = λ q l u. kept q l ∙ elim (Bool-cases (ltb q (p.sector * sector_size))) [
          | inl other ↦ entered-earlier q (ground arith)
          | inr here ↦
              let i = q - p.sector * sector_size in
              let there : q ≡ p.sector * sector_size + i = ground arith in
              let low_i : i < o = omega (arith, at.sector, at.entry, u) in
              rw there (
                entered_self i (omega arith)
                ∙ with_entry-before p.after.fsbuf o inode_nr filename i low_i
                ∙ after-bytes i (omega arith))
        ];
        number =
            get32-shift (t.disk dev) (with_entry p.after.fsbuf o inode_nr filename)
              (entry_place blk0 x) o (λ i l. new i (omega arith))
            ∙ with_entry-number p.after.fsbuf o inode_nr filename nr_small;
        name = λ i l.
            ap (t.disk dev) (omega arith)
            ∙ new (4 + i) (omega arith)
            ∙ ap (with_entry p.after.fsbuf o inode_nr filename) (omega arith)
            ∙ with_entry-name p.after.fsbuf o inode_nr filename i (λ behind.
              after-bytes (o + 4 + i) (omega arith)
              ∙ ap (s.disk dev) (omega (arith, in_sector (4 + i)))
              ∙ clear i behind l);
      }
