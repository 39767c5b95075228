-- ===== src/Fs/ReadWrite/RoundTrip.antt =====
-- fs/read_write.c `do_rdwt`: a read gives back what a write has left.
use osin32bits.Base.{ℕ, ◌+◌, ◌*◌, ◌≤◌, ◌<◌, ◌≡◌, refl, ap, ◌∙◌, true, ok, arith, leb}
use osin32bits.Fs.Types.{sector_size, SuperBlock, Fs}
use osin32bits.Fs.Sectors.{max_request_sects}
use osin32bits.Fs.Inodes.{get_super_block-cong, get_super_block}
use osin32bits.Fs.ReadWrite.{reading, writing, rdwt_file}
use osin32bits.Fs.ReadWrite.Span.{rdwt_file-HasRead}
use osin32bits.Fs.ReadWrite.Write.{Fits, HasWritten, rdwt_file-HasWritten}

-- A write that fits and ends at the end of the file or behind it, in a file that stays smaller than
-- 256 sectors: a read of at least the bytes up to the end then returns, and
-- gives at the old position the bytes that were written.
pub rdwt_file-round_trip :
    (s : Fs) (desc pin len : ℕ) (buf : ℕ → ℕ) (sb : SuperBlock) (len' : ℕ) (buf' : ℕ → ℕ)
    → Fits s desc pin len sb
    → (s.inode_table pin).i_size ≤ (s.f_desc_table desc).fd_pos + len
    → (s.f_desc_table desc).fd_pos + len < max_request_sects * sector_size
    → (s.f_desc_table desc).fd_pos + len ≤ len'
    → (t : Fs) × (b : ℕ → ℕ) × (rdwt_file s writing desc pin len buf ≡ ok (len, t, b))
      × HasWritten s desc pin len buf sb t
      × (n : ℕ) × (u : Fs) × (b' : ℕ → ℕ) × (rdwt_file t reading desc pin len' buf' ≡ ok (n, u, b'))
      × ((k : ℕ) → k < len → b' ((s.f_desc_table desc).fd_pos + k) ≡ buf k)
rdwt_file-round_trip s desc pin len buf sb len' buf' f at_end small room =
    let r = s.inode_table pin in
    let end = (s.f_desc_table desc).fd_pos + len in
    let (t, b, e, w) = rdwt_file-HasWritten s desc pin len buf sb f in
    let grows : leb r.i_size end ≡ true = ground arith in
    let inode : t.inode_table pin ≡ record r { i_size = end } = w.inode ∙ rw grows refl in
    let size : (t.inode_table pin).i_size ≡ end = ap (λ x. x.i_size) inode in
    let start : (t.inode_table pin).i_start_sect ≡ r.i_start_sect =
      ap (λ x. x.i_start_sect) inode in
    let dev : (t.inode_table pin).i_dev ≡ r.i_dev = ap (λ x. x.i_dev) inode in
    let has_sb =
      ap (get_super_block t) dev ∙ get_super_block-cong s t r.i_dev w.super_block ∙ f.has_sb in
    let (n, u, b', e', g) =
      rdwt_file-HasRead t desc pin len' buf' sb has_sb (omega (arith, size))
        (omega (arith, size, w.position)) in
    (
      t,
      b,
      e,
      w,
      n,
      u,
      b',
      e',
      λ k lt.
          g.bytes ((s.f_desc_table desc).fd_pos + k) (omega (arith, g.count, size))
          ∙ ap
              (λ x. t.disk x (
                (t.inode_table pin).i_start_sect * sector_size
                + ((s.f_desc_table desc).fd_pos + k)))
              dev
          ∙ ap (t.disk r.i_dev) (omega (arith, start))
          ∙ w.bytes k lt,
    )
