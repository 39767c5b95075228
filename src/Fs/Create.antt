-- ===== src/Fs/Create.antt =====
-- fs/open.c `creat_file`: a new inode and its entry in the directory.
pub mod Free
pub mod Buffer
pub mod Entry
pub mod Found
mod Tests
use osin32bits.Base.{
  ℕ, zero, suc, ◌+◌, ◌*◌, ◌/◌, ◌%◌, ◌^◌, Option, none, some, List, [], ◌∷◌, Run, ok, fault,
  null_pointer, ◌>>=◌, ◌==◌, ltb, update, if◌then◌else◌,
}
use osin32bits.Fs.Types.{sector_size, dir_entry_size, nr_default_file_sects, i_regular, Fs}
use osin32bits.Fs.Sectors.{rd_sect, wr_sect, put32}
use osin32bits.Fs.Inodes.{set_inode, get_inode, sync_inode}
use osin32bits.Fs.Path.{strip_path, entry_inode_nr}
use osin32bits.Fs.Bitmap.{alloc_imap_bit, alloc_smap_bit}

-- A pointer that the code follows.
abbrev pub pointer {ℓ} : {A : Type ℓ} → Option A → Run A
pointer none = fault null_pointer
pointer (some a) = ok a

-- `new_inode`
unfoldable pub new_inode : Fs → (dev inode_nr start_sect : ℕ) → Run (ℕ × Fs)
new_inode s dev inode_nr start_sect = do
  (found, t) ← get_inode s dev inode_nr
  p ← pointer found
  let r = record (t.inode_table p) {
    i_mode = i_regular;
    i_size = 0;
    i_start_sect = start_sect;
    i_nr_sects = nr_default_file_sects;
    i_dev = dev;
    i_cnt = 1;
    i_num = inode_nr;
  }
  u ← sync_inode (set_inode t p r) p
  ok (p, u)

-- Where the new entry goes: a free entry, or the one behind the last.
pub data Spot : Type 0 where
  free_entry : ℕ → Spot
  past_end : ℕ → Spot
  no_spot : ℕ → Spot

-- The inner loop of `new_dir_entry`, over the `n` entries from `j` on, with the counter `m`.
unfoldable pub entry_spot : (ℕ → ℕ) → (nr_dir_entries n j m : ℕ) → Spot
entry_spot b nr_dir_entries zero j m = no_spot m
entry_spot b nr_dir_entries (suc n) j m =
    let next = entry_spot b nr_dir_entries n (j + 1) (m + 1) in
    if ltb nr_dir_entries (m + 1)
    then past_end j
    else (if entry_inode_nr b (j * dir_entry_size) == 0 then free_entry j else next)

-- A place in a sector of the directory, and whether the directory grows.
pub record Place : Type 0 where
  pub sector : ℕ
  pub entry : ℕ
  pub grows : ℕ
  pub after : Fs

-- The outer loop, over the `n` sectors from `blk` on. There is always an entry behind the last, so
-- the loop does not run to its end.
unfoldable pub dir_spot : Fs → (dev nr_dir_entries n blk m : ℕ) → Place
dir_spot s dev nr_dir_entries zero blk m = record {
  sector = blk;
  entry = sector_size / dir_entry_size;
  grows = 1;
  after = s;
}
dir_spot s dev nr_dir_entries (suc n) blk m =
    let t = rd_sect s dev blk in
    elim (entry_spot t.fsbuf nr_dir_entries (sector_size / dir_entry_size) 0 m) [
      | free_entry j ↦ record { sector = blk; entry = j; grows = 0; after = t }
      | past_end j ↦ record { sector = blk; entry = j; grows = 1; after = t }
      | no_spot m' ↦ dir_spot t dev nr_dir_entries n (blk + 1) m'
    ]

-- `strcpy(b + o, t)`
unfoldable pub put_text : (ℕ → ℕ) → (o : ℕ) → List ℕ → ℕ → ℕ
put_text b o [] = update b o 0
put_text b o (c ∷ t) = put_text (update b o c) (o + 1) t

-- `new_dir_entry`, for the directory in the slot `dir`.
unfoldable pub new_dir_entry : Fs → (dir inode_nr : ℕ) → (filename : List ℕ) → Run Fs
new_dir_entry s dir inode_nr filename =
    let r = s.inode_table dir in
    let nr_dir_blks = (r.i_size + sector_size) / sector_size in
    let nr_dir_entries = r.i_size / dir_entry_size in
    let place = dir_spot s r.i_dev nr_dir_entries nr_dir_blks r.i_start_sect 0 in
    let t = place.after in
    let o = place.entry * dir_entry_size in
    let size = (r.i_size + place.grows * dir_entry_size) % 2 ^ 32 in
    let u = record t {
      inode_table = update t.inode_table dir (record r { i_size = size });
      fsbuf = put_text (put32 t.fsbuf o inode_nr) (o + 4) filename;
    } in
    sync_inode (wr_sect u r.i_dev place.sector) dir

-- `creat_file`; `none` is a null pointer.
unfoldable pub creat_file : Fs → (path : List ℕ) → Run (Option ℕ × Fs)
creat_file s path = elim (strip_path s (some path)) [
  | none ↦ ok (none, s)
  | some (filename, dir) ↦ do
    let dev = (s.inode_table dir).i_dev
    (inode_nr, s1) ← alloc_imap_bit s dev
    (free_sect_nr, s2) ← alloc_smap_bit s1 dev nr_default_file_sects
    (newino, s3) ← new_inode s2 dev inode_nr free_sect_nr
    s4 ← new_dir_entry s3 dir (s3.inode_table newino).i_num filename
    ok (some newino, s4)
]
