-- ===== src/Fs/ReadWrite.antt =====
-- fs/read_write.c `do_rdwt`. The buffer of the caller is the bytes from its address on. Positions and
-- counts are not negative, and sums of ints fit.
pub mod Ends
pub mod Span
pub mod Write
pub mod RoundTrip
mod Tests
use osin32bits.Base.{
  ℕ, zero, suc, ◌+◌, ◌-◌, ◌*◌, ◌/◌, ◌%◌, ◌^◌, Option, none, some, Bool, true, false, not, ◌&&◌,
  ◌||◌, Run, ok, fault, null_pointer, out_of_fuel, ◌>>=◌, ◌>>◌, assert, ◌==◌, ltb, leb, min, update,
  if◌then◌else◌, has_flag,
}
use osin32bits.Fs.Types.{
  sector_size, nr_file_desc, nr_inode, i_regular, i_directory, i_char_special, o_rdwr, Inode,
  FileDesc, Fs,
}
use osin32bits.Fs.Sectors.{max_request_sects, read_disk, write_disk}
use osin32bits.Fs.Inodes.{set_inode, sync_inode}
use osin32bits.Fs.Create.{pointer}
use osin32bits.Fs.Files.{set_desc, type_of_mode, major, minor}

-- FSBUF_SIZE >> SECTOR_SIZE_SHIFT
abbrev pub fsbuf_sects : ℕ
fsbuf_sects = 2048

-- The type of the message, READ or WRITE.
pub data Direction : Type 0 where
  reading writing : Direction

-- `phys_copy` of `n` bytes.
abbrev pub copy_bytes : (to : ℕ → ℕ) → (at : ℕ) → (from : ℕ → ℕ) → (start n : ℕ) → ℕ → ℕ
copy_bytes to at from start n i =
    if leb at i && ltb i (at + n) then from (start + (i - at)) else to i

-- The variables of the loop: the state, the buffer of the caller, `off`, `bytes_rw` and `bytes_left`.
pub record Transfer : Type 0 where
  pub fs : Fs
  pub buf : ℕ → ℕ
  pub off : ℕ
  pub bytes_rw : ℕ
  pub bytes_left : ℕ

-- The body of the loop when its requests end, for the `chunk` sectors from `i` on, and the descriptor `desc`.
unfoldable pub transfer_chunk : Direction → (dev desc chunk i : ℕ) → Transfer → Transfer
transfer_chunk dir dev desc chunk i x =
    let bytes = min x.bytes_left (chunk * sector_size - x.off) in
    let s = read_disk x.fs dev (i * sector_size) (chunk * sector_size) in
    let d = s.f_desc_table desc in
    let moved = record d { fd_pos = d.fd_pos + bytes } in
    let y = record x {
      fs = set_desc s desc moved;
      off = 0;
      bytes_rw = x.bytes_rw + bytes;
      bytes_left = x.bytes_left - bytes;
    } in
    elim dir [
      | reading ↦ record y { buf = copy_bytes x.buf x.bytes_rw s.fsbuf x.off bytes }
      | writing ↦
          let b = copy_bytes s.fsbuf x.off x.buf x.bytes_rw bytes in
          record y {
            fs =
                set_desc
                  (write_disk (record s { fsbuf = b }) dev (i * sector_size) (chunk * sector_size))
                  desc moved;
          }
    ]

-- The same with its request, which comes first in both directions: for more sectors than the driver
-- counts it waits for ever.
unfoldable pub request_chunk : Direction → (dev desc chunk i : ℕ) → Transfer → Run Transfer
request_chunk dir dev desc chunk i x =
    if leb chunk max_request_sects
    then ok (transfer_chunk dir dev desc chunk i x)
    else fault out_of_fuel

-- The loop `for (i = rw_sect_min; i <= rw_sect_max; i += chunk)`, on fuel.
unfoldable pub transfer :
    (fuel : ℕ) → Direction → (dev desc chunk rw_sect_max i : ℕ) → Transfer → Run Transfer
transfer zero dir dev desc chunk rw_sect_max i x = fault out_of_fuel
transfer (suc fuel) dir dev desc chunk rw_sect_max i x =
    let rest =
      request_chunk dir dev desc chunk i x
      >>= transfer fuel dir dev desc chunk rw_sect_max (i + chunk) in
    if leb i rw_sect_max then rest else ok x

-- The end of `do_rdwt`: a position at the end of the file, or behind it, is the new size.
unfoldable pub update_size : (desc pin : ℕ) → Transfer → Run (ℕ × Fs × (ℕ → ℕ))
update_size desc pin x =
    let t = x.fs in
    let fd_pos = (t.f_desc_table desc).fd_pos in
    let r = t.inode_table pin in
    let resized =
      (sync_inode (set_inode t pin (record r { i_size = fd_pos })) pin >>= λ u.
      ok (x.bytes_rw, u, x.buf)) in
    if leb r.i_size fd_pos then resized else ok (x.bytes_rw, t, x.buf)

-- `pos` and `pos_end`
abbrev pub first_pos : Direction → FileDesc → ℕ
first_pos reading d = 0
first_pos writing d = d.fd_pos

abbrev pub last_pos : Direction → Inode → (pos len : ℕ) → ℕ
last_pos reading r pos len = r.i_size
last_pos writing r pos len = min (pos + len) (r.i_nr_sects * sector_size)

-- The part of `do_rdwt` for a file on the disk: the count, the state and the buffer.
unfoldable pub rdwt_file :
    Fs → Direction → (desc pin len : ℕ) → (buf : ℕ → ℕ) → Run (ℕ × Fs × (ℕ → ℕ))
rdwt_file s dir desc pin len buf =
    let r = s.inode_table pin in
    let pos = first_pos dir (s.f_desc_table desc) in
    let rw_sect_min = r.i_start_sect + pos / sector_size in
    let rw_sect_max = r.i_start_sect + last_pos dir r pos len / sector_size in
    let chunk = min (rw_sect_max + 1 - rw_sect_min) fsbuf_sects in
    let start : Transfer = record {
      fs = s;
      buf = buf;
      off = pos % sector_size;
      bytes_rw = 0;
      bytes_left = len;
    } in
    transfer (suc (suc (rw_sect_max - rw_sect_min))) dir r.i_dev desc chunk rw_sect_max rw_sect_min
      start
    >>= update_size desc pin

-- `do_rdwt`; `none` is -1, and `driver` gives the count that the terminal with a minor number answers.
unfoldable pub do_rdwt :
    (driver : Direction → (dev cnt : ℕ) → ℕ)
    → Fs
    → Direction
    → (pcaller fd len : ℕ) → (buf : ℕ → ℕ) → Run (Option ℕ × Fs × (ℕ → ℕ))
do_rdwt driver s dir pcaller fd len buf = do
  desc ← pointer (s.filp pcaller fd)
  assert (ltb desc nr_file_desc)
  if not (has_flag (s.f_desc_table desc).fd_mode o_rdwr) then ok (none, s, buf) else (do
    pin ← pointer (s.f_desc_table desc).fd_inode
    assert (ltb pin nr_inode)
    let r = s.inode_table pin
    let cnt = driver dir (minor r.i_start_sect) len
    if type_of_mode r.i_mode == i_char_special
        then (do assert (major r.i_start_sect == 4); assert (cnt == len); ok (some cnt, s, buf))
        else (do
          assert ((r.i_mode == i_regular) || (r.i_mode == i_directory))
          (n, t, b) ← rdwt_file s dir desc pin len buf
          ok (some n, t, b)))
