-- ===== src/Fs/Path.antt =====
-- fs/misc.c: names of files and the directory. A text is a list of characters; it ends at the first
-- 0 or with the list.
pub mod Names
pub mod Entries
pub mod Search
use osin32bits.Base.{
  ℕ, zero, suc, ◌+◌, ◌-◌, ◌*◌, ◌/◌, ◌%◌, Option, none, some, List, [], ◌∷◌, get_or, ◌==◌, ltb,
  if◌then◌else◌,
}
use osin32bits.Text.{memcmp, char_at}
use osin32bits.Fs.Types.{sector_size, dir_entry_size, max_filename_len, Inode, Fs}
use osin32bits.Fs.Sectors.{rd_sect, get32}

abbrev pub slash : ℕ
slash = 47

abbrev pub after_slash : List ℕ → List ℕ
after_slash [] = []
after_slash (c ∷ s) = if c == slash then s else c ∷ s

-- The loop of `strip_path`, with `room` characters to go; `none` is the return of -1.
unfoldable pub copy_name : List ℕ → (room : ℕ) → Option (List ℕ)
copy_name [] room = some []
copy_name (c ∷ s) zero = some []
copy_name (c ∷ s) (suc room) =
    let rest = copy_name s room in
    if c == 0
    then some []
    else (if c == slash then none else elim rest [ none ↦ none | some t ↦ some (c ∷ t) ])

-- `strip_path`: the name, without its 0, and the directory. A null pointer is `none`, and so is -1.
unfoldable pub strip_path : Fs → Option (List ℕ) → Option (List ℕ × ℕ)
strip_path s none = none
strip_path s (some path) = elim (copy_name (after_slash path) max_filename_len) [
  | none ↦ none
  | some t ↦ some (t, s.root_inode)
]

-- A text in a buffer of zeros.
abbrev pub buffer_of : List ℕ → ℕ → ℕ
buffer_of t i = get_or t i 0

-- The entry at an offset of the buffer.
abbrev pub entry_inode_nr : (ℕ → ℕ) → (o : ℕ) → ℕ
entry_inode_nr b o = get32 b o

abbrev pub entry_name : (ℕ → ℕ) → (o i : ℕ) → ℕ
entry_name b o i = b (o + 4 + i)

-- A loop over entries returns a number, or leaves the counter.
pub data Scan : Type 0 where
  returned : ℕ → Scan
  counted : ℕ → Scan

-- The inner loop of `search_file`, over the `n` entries from `j` on, with the counter `m`.
unfoldable pub search_sector : (b name : ℕ → ℕ) → (nr_dir_entries n j m : ℕ) → Scan
search_sector b name nr_dir_entries zero j m = counted m
search_sector b name nr_dir_entries (suc n) j m =
    let next = search_sector b name nr_dir_entries n (j + 1) (m + 1) in
    if memcmp name (entry_name b (j * dir_entry_size)) max_filename_len 0 == 0
    then returned (entry_inode_nr b (j * dir_entry_size))
    else (if ltb nr_dir_entries (m + 1) then counted (m + 1) else next)

-- The outer loop, over the `n` sectors from `blk` on.
unfoldable pub search_sectors : Fs → (name : ℕ → ℕ) → (dev nr_dir_entries n blk m : ℕ) → ℕ × Fs
search_sectors s name dev nr_dir_entries zero blk m = (0, s)
search_sectors s name dev nr_dir_entries (suc n) blk m =
    let t = rd_sect s dev blk in
    elim (search_sector t.fsbuf name nr_dir_entries (sector_size / dir_entry_size) 0 m) [
      | returned nr ↦ (nr, t)
      | counted m' ↦
          let next = search_sectors t name dev nr_dir_entries n (blk + 1) m' in
          if ltb nr_dir_entries m' then (0, t) else next
    ]

-- `search_file`: the number of the inode, 0 if there is none.
unfoldable pub search_file : Fs → (path : List ℕ) → ℕ × Fs
search_file s path = elim (strip_path s (some path)) [
  | none ↦ (0, s)
  | some (filename, p) ↦
      let dir = s.inode_table p in
      let nr_dir_blks = (dir.i_size + sector_size - 1) / sector_size in
      let nr_dir_entries = dir.i_size / dir_entry_size in
      if char_at filename == 0
      then (dir.i_num, s)
      else search_sectors s (buffer_of filename) dir.i_dev nr_dir_entries nr_dir_blks
          dir.i_start_sect 0
]
