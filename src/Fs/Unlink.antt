-- ===== src/Fs/Unlink.antt =====
-- fs/link.c `do_unlink`. A result of -1 is `none`.
pub mod Busy
mod Tests
use osin32bits.Base.{
  ℕ, zero, suc, ◌+◌, ◌-◌, ◌*◌, ◌/◌, ◌%◌, ◌^◌, Option, none, some, List, [], ◌∷◌, length, Bool, true,
  false, not, ◌&&◌, ◌||◌, Run, ok, fault, ◌>>=◌, ◌>>◌, assert, ◌==◌, ltb, leb, update,
  if◌then◌else◌, has_flag, clear_flag,
}
use osin32bits.Text.{strcmp}
use osin32bits.Fs.Types.{sector_size, dir_entry_size, i_regular, max_path, Inode, SuperBlock, Fs}
use osin32bits.Fs.Sectors.{rd_sect, wr_sect}
use osin32bits.Fs.Inodes.{set_inode, get_super_block, get_inode, put_inode, sync_inode}
use osin32bits.Fs.Path.{slash, strip_path, search_file, entry_inode_nr}
use osin32bits.Fs.Create.{pointer}

-- A byte of the buffer is replaced.
abbrev pub set_byte : Fs → (i v : ℕ) → Fs
set_byte s i v = record s { fsbuf = update s.fsbuf i v }

-- The bit of the inode in its map.
unfoldable pub free_imap_bit : Fs → (dev inode_nr : ℕ) → Run Fs
free_imap_bit s dev inode_nr = do
  let byte_idx = inode_nr / 8
  let bit = 2 ^ (inode_nr % 8)
  assert (ltb byte_idx sector_size)
  let t = rd_sect s dev 2
  assert (has_flag (t.fsbuf byte_idx) bit)
  ok (wr_sect (set_byte t byte_idx (clear_flag (t.fsbuf byte_idx) bit)) dev 2)

-- `for (i = bit_idx % 8; (i < 8) && bits_left; i++, bits_left--)`, with `n` bits to go.
unfoldable pub clear_bits : (n i byte bits_left : ℕ) → Run (ℕ × ℕ)
clear_bits zero i byte bits_left = ok (byte, bits_left)
clear_bits (suc n) i byte bits_left =
    let next =
      assert (has_flag byte (2 ^ i))
      >> clear_bits n (i + 1) (clear_flag byte (2 ^ i)) (bits_left - 1) in
    if bits_left == 0 then ok (byte, bits_left) else next

-- A place in the map of sectors: the byte `at` of the sector `sect`, which is in the buffer.
pub record Cursor : Type 0 where
  pub fs : Fs
  pub sect : ℕ
  pub at : ℕ

-- Behind the end of a sector: it is written, and the next one is read.
unfoldable pub next_sect : (dev : ℕ) → Cursor → Cursor
next_sect dev c =
    if c.at == sector_size
    then record {
      fs = rd_sect (wr_sect c.fs dev c.sect) dev (c.sect + 1);
      sect = c.sect + 1;
      at = 0;
    }
    else c

-- `for (k = 0; k < byte_cnt; k++, i++, bits_left -= 8)`: whole bytes.
unfoldable pub clear_bytes : (dev byte_cnt : ℕ) → Cursor → Run Cursor
clear_bytes dev zero c = ok c
clear_bytes dev (suc n) c = do
  let d = next_sect dev c
  assert (d.fs.fsbuf d.at == 0xFF)
  clear_bytes dev n (record d { fs = set_byte d.fs d.at 0; at = d.at + 1 })

-- The bits of the file in the map of sectors. The last mask has less than 8 bits.
unfoldable pub free_smap_bits : Fs → SuperBlock → Inode → Run Fs
free_smap_bits s sb r = do
  let dev = r.i_dev
  let bit_idx = (r.i_start_sect + (2 ^ 32 - sb.n_1st_sect) + 1) % 2 ^ 32
  let byte_idx = bit_idx / 8
  let byte_cnt = (r.i_nr_sects - (8 - bit_idx % 8)) / 8
  let sect = 2 + sb.nr_imap_sects + byte_idx / sector_size
  let i = byte_idx % sector_size
  let t = rd_sect s dev sect
  (byte, left) ← clear_bits (8 - bit_idx % 8) (bit_idx % 8) (t.fsbuf i) r.i_nr_sects
  c ← clear_bytes dev byte_cnt (record { fs = set_byte t i byte; sect = sect; at = i + 1 })
  let bits_left = left - byte_cnt * 8
  let d = next_sect dev c
  let last = d.fs.fsbuf d.at
  assert (last % 2 ^ bits_left == 2 ^ bits_left - 1)
  ok (wr_sect (set_byte d.fs d.at (last - last % 2 ^ bits_left)) dev d.sect)

-- The variables of the loops over the directory: the state, `m`, `dir_size` and `flg`.
pub record Entries : Type 0 where
  pub fs : Fs
  pub m : ℕ
  pub dir_size : ℕ
  pub flg : Bool

-- `memset(pde, 0, DIR_ENTRY_SIZE)`
abbrev pub zero_entry : Fs → (o : ℕ) → Fs
zero_entry s o = record s {
  fsbuf = λ i. if leb o i && ltb i (o + dir_entry_size) then 0 else s.fsbuf i;
}

-- The body of the inner loop, behind its break, for the entry at `o` of the sector `blk`.
unfoldable pub unlink_entry : (dev blk inode_nr o : ℕ) → Entries → Entries
unlink_entry dev blk inode_nr o e =
    let hit = entry_inode_nr e.fs.fsbuf o == inode_nr in
    let t = if hit then wr_sect (zero_entry e.fs o) dev blk else e.fs in
    record e {
      fs = t;
      flg = hit || e.flg;
      dir_size = if entry_inode_nr t.fsbuf o == 0 then e.dir_size else e.dir_size + dir_entry_size;
    }

-- The inner loop, over the `n` entries from `j` on.
unfoldable pub unlink_entries : (dev blk inode_nr nr_dir_entries n j : ℕ) → Entries → Entries
unlink_entries dev blk inode_nr nr_dir_entries zero j e = e
unlink_entries dev blk inode_nr nr_dir_entries (suc n) j e =
    let f = record e { m = e.m + 1 } in
    let rest =
      unlink_entries dev blk inode_nr nr_dir_entries n (j + 1)
        (unlink_entry dev blk inode_nr (j * dir_entry_size) f) in
    if ltb nr_dir_entries (e.m + 1) then f else rest

-- The outer loop, over the `n` sectors from `blk` on.
unfoldable pub unlink_sectors : (dev inode_nr nr_dir_entries n blk : ℕ) → Entries → Entries
unlink_sectors dev inode_nr nr_dir_entries zero blk e = e
unlink_sectors dev inode_nr nr_dir_entries (suc n) blk e =
    let f =
      unlink_entries dev blk inode_nr nr_dir_entries (sector_size / dir_entry_size) 0
        (record e { fs = rd_sect e.fs dev blk }) in
    let rest = unlink_sectors dev inode_nr nr_dir_entries n (blk + 1) f in
    if ltb nr_dir_entries f.m || f.flg then f else rest

-- The directory without the entry.
unfoldable pub reset_dir : Fs → (dir inode_nr : ℕ) → Run Fs
reset_dir s dir inode_nr = do
  let r = s.inode_table dir
  let nr_dir_blks = (r.i_size + sector_size) / sector_size
  let nr_dir_entries = r.i_size / dir_entry_size
  let e =
      unlink_sectors r.i_dev inode_nr nr_dir_entries nr_dir_blks r.i_start_sect
        (record { fs = s; m = 0; dir_size = 0; flg = false })
  assert e.flg
  if e.m == nr_dir_entries
      then sync_inode (set_inode e.fs dir (record r { i_size = e.dir_size })) dir
      else ok e.fs

-- `do_unlink` behind its checks, for the inode in the slot `pin`.
unfoldable pub unlink_inode : Fs → (dir pin inode_nr : ℕ) → Run Fs
unlink_inode s dir pin inode_nr = do
  let r = s.inode_table pin
  sb ← get_super_block s r.i_dev
  s1 ← free_imap_bit s r.i_dev inode_nr
  s2 ← free_smap_bits s1 sb r
  let cleared = record r { i_mode = 0; i_size = 0; i_start_sect = 0; i_nr_sects = 0 }
  s3 ← sync_inode (set_inode s2 pin cleared) pin
  s4 ← put_inode s3 pin
  reset_dir s4 dir inode_nr

-- The checks of an inode that is found.
unfoldable pub unlink_found : Fs → (dir inode_nr : ℕ) → Run (Option ℕ × Fs)
unlink_found s dir inode_nr = do
  (found, t) ← get_inode s (s.inode_table dir).i_dev inode_nr
  pin ← pointer found
  let r = t.inode_table pin
  if not (r.i_mode == i_regular) || ltb 1 r.i_cnt
      then ok (none, t)
      else (do u ← unlink_inode t dir pin inode_nr; ok (some 0, u))

-- `do_unlink`
unfoldable pub do_unlink : Fs → (path : List ℕ) → Run (Option ℕ × Fs)
do_unlink s path = do
  assert (ltb (length path) max_path)
  let (inode_nr, t) = search_file s path
  if strcmp path (slash ∷ []) == 0
      then ok (none, s)
      else (if inode_nr == 0 then ok (none, t) else elim (strip_path t (some path)) [
        | none ↦ ok (none, t)
        | some (filename, dir) ↦ unlink_found t dir inode_nr
      ])
