-- ===== src/Fs/ReadWrite/Span.antt =====
-- fs/read_write.c `do_rdwt`: a file whose span fits into the buffer of the task.
use osin32bits.Base.{
  ℕ, suc, ◌+◌, ◌-◌, ◌*◌, ◌/◌, ◌%◌, ◌≤◌, ◌<◌, ◌≡◌, refl, ap, ◌∙◌, true, false, ok, ◌>>=◌, arith, leb,
  min,
}
use osin32bits.Fs.Types.{sector_size, SuperBlock, Fs}
use osin32bits.Fs.Sectors.{max_request_sects, read_disk}
use osin32bits.Fs.Inodes.{inode_block, get_super_block-cong, get_super_block, set_inode}
use osin32bits.Fs.Inodes.Sync.{HasSynced, sync_inode-HasSynced}
use osin32bits.Fs.ReadWrite.{
  Direction, reading, Transfer, fsbuf_sects, transfer_chunk, request_chunk, transfer, update_size,
  first_pos, last_pos, rdwt_file,
}

-- If one chunk spans the sectors, the body of the loop runs once.
transfer-once :
    (n : ℕ) (dir : Direction) (dev desc chunk last i : ℕ) (x : Transfer)
    → i ≤ last
    → last < i + chunk
    → chunk ≤ max_request_sects
    → transfer (suc (suc n)) dir dev desc chunk last i x
      ≡ ok (transfer_chunk dir dev desc chunk i x)
unfolding transfer request_chunk
transfer-once n dir dev desc chunk last i x h u c =
    let ends : leb chunk max_request_sects ≡ true = ground arith in
    let goes : leb i last ≡ true = ground arith in
    let stops : leb (i + chunk) last ≡ false = ground arith in rw (goes, ends, stops) refl

-- What a read gives: the count, the buffer, and the file that has grown by the count.
pub record HasRead (s : Fs) (desc pin len : ℕ) (buf : ℕ → ℕ) (n : ℕ) (t : Fs) (b : ℕ → ℕ)
    : Type 0 where
  pub count : n ≡ min len (((s.inode_table pin).i_size / sector_size + 1) * sector_size)
  pub bytes :
      (k : ℕ)
      → k < n
      → b k ≡ s.disk (s.inode_table pin).i_dev ((s.inode_table pin).i_start_sect * sector_size + k)
  pub position : (t.f_desc_table desc).fd_pos ≡ (s.f_desc_table desc).fd_pos + n
  pub size : (t.inode_table pin).i_size ≡ (s.f_desc_table desc).fd_pos + n

-- `update_size` returns; the file has the size of the position, if this is not below its end.
pub update_size-resized :
    (desc pin : ℕ) (x : Transfer) (sb : SuperBlock)
    → get_super_block x.fs (x.fs.inode_table pin).i_dev ≡ ok sb
    → (x.fs.inode_table pin).i_size ≤ (x.fs.f_desc_table desc).fd_pos
    → (t : Fs) × (update_size desc pin x ≡ ok (x.bytes_rw, t, x.buf))
      × HasSynced
          (set_inode x.fs pin
            (record (x.fs.inode_table pin) { i_size = (x.fs.f_desc_table desc).fd_pos }))
          (x.fs.inode_table pin).i_dev
          (inode_block sb (x.fs.inode_table pin).i_num)
          t
unfolding update_size
update_size-resized desc pin x sb has_sb behind =
    let r = x.fs.inode_table pin in
    let u = set_inode x.fs pin (record r { i_size = (x.fs.f_desc_table desc).fd_pos }) in
    let at_end : leb r.i_size (x.fs.f_desc_table desc).fd_pos ≡ true = ground arith in
    let (t, e, h) =
      sync_inode-HasSynced u pin (record r { i_size = (x.fs.f_desc_table desc).fd_pos }) sb
        (ground arith) (get_super_block-cong x.fs u r.i_dev refl ∙ has_sb) in
    (t, rw (at_end, e) refl, h)

-- The loop body for the sectors `lo` to `hi`, from `off` on.
abbrev pub one_chunk :
    Fs → Direction → (desc pin len : ℕ) → (buf : ℕ → ℕ) → (lo hi off : ℕ) → Transfer
one_chunk s dir desc pin len buf lo hi off =
    transfer_chunk dir (s.inode_table pin).i_dev desc (min (hi + 1 - lo) fsbuf_sects) lo
      (record { fs = s; buf = buf; off = off; bytes_rw = 0; bytes_left = len })

pub rdwt_file-one_chunk :
    (s : Fs) (dir : Direction) (desc pin len : ℕ) (buf : ℕ → ℕ) (lo hi off : ℕ)
    → lo ≡ (s.inode_table pin).i_start_sect + first_pos dir (s.f_desc_table desc) / sector_size
    → hi
      ≡ (s.inode_table pin).i_start_sect
        + last_pos dir (s.inode_table pin) (first_pos dir (s.f_desc_table desc)) len / sector_size
    → off ≡ first_pos dir (s.f_desc_table desc) % sector_size
    → lo ≤ hi
    → hi < lo + max_request_sects
    → rdwt_file s dir desc pin len buf
      ≡ update_size desc pin (one_chunk s dir desc pin len buf lo hi off)
unfolding rdwt_file
rdwt_file-one_chunk s dir desc pin len buf lo hi off el eh eo h u =
    rw (← el, ← eh, ← eo)
      (ap (λ x. x >>= update_size desc pin)
        (transfer-once (hi - lo) dir (s.inode_table pin).i_dev desc (min (hi + 1 - lo) fsbuf_sects)
          hi lo _ h (omega arith) (omega arith)))

-- A read of a file on a device with a super block, smaller than 256 sectors, through a descriptor
-- whose position is not before the end of the file, returns. The count is the length, cut to the
-- sectors up to that of the end; the buffer has the bytes of the file from its start on; and the file
-- is as large as the old position and the count together.
pub rdwt_file-HasRead :
    (s : Fs) (desc pin len : ℕ) (buf : ℕ → ℕ) (sb : SuperBlock)
    → get_super_block s (s.inode_table pin).i_dev ≡ ok sb
    → (s.inode_table pin).i_size < max_request_sects * sector_size
    → (s.inode_table pin).i_size ≤ (s.f_desc_table desc).fd_pos
    → (n : ℕ) × (t : Fs) × (b : ℕ → ℕ) × (rdwt_file s reading desc pin len buf ≡ ok (n, t, b))
      × HasRead s desc pin len buf n t b
unfolding rdwt_file transfer_chunk read_disk
rdwt_file-HasRead s desc pin len buf sb has_sb small behind =
    let r = s.inode_table pin in
    let d = s.f_desc_table desc in
    let lo = r.i_start_sect in
    let hi = r.i_start_sect + r.i_size / sector_size in
    let x = one_chunk s reading desc pin len buf lo hi 0 in
    let run =
      rdwt_file-one_chunk s reading desc pin len buf lo hi 0 (omega arith) refl refl (omega arith)
        (omega arith) in
    let n = min len (min (hi + 1 - lo) fsbuf_sects * sector_size - 0) in
    let moved : (x.fs.f_desc_table desc).fd_pos ≡ d.fd_pos + n = ground arith in
    let (t, e, h) =
      update_size-resized desc pin x sb (get_super_block-cong s x.fs r.i_dev refl ∙ has_sb)
        (omega (arith, moved)) in
    (
      x.bytes_rw,
      t,
      x.buf,
      run ∙ e,
      record {
        count = omega arith;
        bytes = λ k lt. ground arith;
        position = ap (λ f. (f desc).fd_pos) h.f_desc_table ∙ moved ∙ omega arith;
        size = ap (λ f. (f pin).i_size) h.inode_table ∙ ground arith;
      },
    )
