-- ===== src/Fs/ReadWrite/Write.antt =====
-- fs/read_write.c `do_rdwt`: what a write leaves on the disk.
use osin32bits.Base.{
  ℕ, ◌+◌, ◌-◌, ◌*◌, ◌/◌, ◌%◌, ◌≤◌, ◌<◌, ◌≡◌, refl, sym, ap, subst, ◌∙◌, ◌≢◌, ◌⊎◌, inl, inr, true,
  false, ◌&&◌, ok, arith, ◌==◌, ltb, leb, min, if◌then◌else◌, Bool-cases, ==_refl,
}
use osin32bits.Fs.Types.{sector_size, Inode, SuperBlock, Fs}
use osin32bits.Fs.Sectors.{max_request_sects, read_disk, write_disk}
use osin32bits.Fs.Inodes.{inode_block, get_super_block-cong, get_super_block}
use osin32bits.Fs.ReadWrite.{
  writing, Transfer, fsbuf_sects, copy_bytes, transfer_chunk, update_size, rdwt_file,
}
use osin32bits.Fs.ReadWrite.Span.{one_chunk, rdwt_file-one_chunk, update_size-resized}

-- The place of a file on its device.
abbrev pub data_start : Inode → ℕ
data_start r = r.i_start_sect * sector_size

-- A write of `len` bytes at the position of the descriptor fits: it ends within the sectors of the
-- file, spans at most 256 sectors, and the data lie behind the inodes.
pub record Fits (s : Fs) (desc pin len : ℕ) (sb : SuperBlock) : Type 0 where
  pub has_sb : get_super_block s (s.inode_table pin).i_dev ≡ ok sb
  pub ends : (s.f_desc_table desc).fd_pos + len ≤ (s.inode_table pin).i_nr_sects * sector_size
  pub span :
      ((s.f_desc_table desc).fd_pos + len) / sector_size
      < (s.f_desc_table desc).fd_pos / sector_size + max_request_sects
  pub behind : inode_block sb (s.inode_table pin).i_num < (s.inode_table pin).i_start_sect

-- The inode with a position in it: the size is not below.
abbrev pub sized : Inode → ℕ → Inode
sized r pos = record r { i_size = if leb r.i_size pos then pos else r.i_size }

-- What a write does: the bytes, and nothing else but the inode.
pub record HasWritten (s : Fs) (desc pin len : ℕ) (buf : ℕ → ℕ) (sb : SuperBlock) (t : Fs)
    : Type 0 where
  pub bytes :
      (k : ℕ)
      → k < len
      → t.disk
          (s.inode_table pin).i_dev
          (data_start (s.inode_table pin) + (s.f_desc_table desc).fd_pos + k)
        ≡ buf k
  pub others :
      (d p : ℕ)
      → ((d ≢ (s.inode_table pin).i_dev)
          ⊎ ((p < data_start (s.inode_table pin) + (s.f_desc_table desc).fd_pos)
              ⊎ (data_start (s.inode_table pin) + (s.f_desc_table desc).fd_pos + len ≤ p)))
      → ((d ≢ (s.inode_table pin).i_dev)
          ⊎ ((p < inode_block sb (s.inode_table pin).i_num * sector_size)
              ⊎ ((inode_block sb (s.inode_table pin).i_num + 1) * sector_size ≤ p)))
      → t.disk d p ≡ s.disk d p
  pub position : (t.f_desc_table desc).fd_pos ≡ (s.f_desc_table desc).fd_pos + len
  pub inode : t.inode_table pin ≡ sized (s.inode_table pin) ((s.f_desc_table desc).fd_pos + len)
  pub filp : t.filp ≡ s.filp
  pub file_desc :
      t.f_desc_table desc
      ≡ record (s.f_desc_table desc) { fd_pos = (s.f_desc_table desc).fd_pos + len }
  pub super_block : t.super_block ≡ s.super_block

-- What `update_size` leaves.
pub record HasEnded (desc pin : ℕ) (x : Transfer) (sb : SuperBlock) (t : Fs) : Type 0 where
  descs : t.f_desc_table ≡ x.fs.f_desc_table
  filp : t.filp ≡ x.fs.filp
  inode : t.inode_table pin ≡ sized (x.fs.inode_table pin) (x.fs.f_desc_table desc).fd_pos
  super_block : t.super_block ≡ x.fs.super_block
  others :
      (d p : ℕ)
      → ((d ≢ (x.fs.inode_table pin).i_dev)
          ⊎ ((p < inode_block sb (x.fs.inode_table pin).i_num * sector_size)
              ⊎ ((inode_block sb (x.fs.inode_table pin).i_num + 1) * sector_size ≤ p)))
      → t.disk d p ≡ x.fs.disk d p

pub update_size-HasEnded :
    (desc pin : ℕ) (x : Transfer) (sb : SuperBlock)
    → get_super_block x.fs (x.fs.inode_table pin).i_dev ≡ ok sb
    → (t : Fs) × (update_size desc pin x ≡ ok (x.bytes_rw, t, x.buf)) × HasEnded desc pin x sb t
unfolding update_size
update_size-HasEnded desc pin x sb has_sb =
    elim (Bool-cases (leb (x.fs.inode_table pin).i_size (x.fs.f_desc_table desc).fd_pos)) [
      | inl grows ↦
          let (t, e, h) = update_size-resized desc pin x sb has_sb (ground arith) in
          (
            t,
            e,
            record {
              descs = h.f_desc_table;
              filp = h.filp;
              inode = ap (λ f. f pin) h.inode_table ∙ rw (grows, ==_refl pin) refl;
              super_block = h.super_block;
              others = h.disk;
            },
          )
      | inr stays ↦ rw stays (
        x.fs,
        refl,
        record {
          descs = refl;
          filp = refl;
          inode = rw stays refl;
          super_block = refl;
          others = λ d p h. refl;
        },
      )
    ]

-- A part of a chunk that is read, changed and written back.
chunk-bytes :
    (s : Fs) (dev base size off len : ℕ) (buf : ℕ → ℕ) (t : Fs)
    → off + len ≤ size
    → t.disk
      ≡ (write_disk
          (record (read_disk s dev base size) {
            fsbuf = copy_bytes (read_disk s dev base size).fsbuf off buf 0 len;
          })
          dev
          base
          size).disk
    → ((k : ℕ) → k < len → t.disk dev (base + off + k) ≡ buf k)
      × ((d p : ℕ)
          → ((d ≢ dev) ⊎ ((p < base + off) ⊎ (base + off + len ≤ p)))
          → t.disk d p ≡ s.disk d p)
unfolding read_disk write_disk
chunk-bytes s dev base size off len buf t h e = rw e (
  λ k lt.
      let inside : (dev == dev && (leb base (base + off + k) && ltb (base + off + k) (base + size)))
          ≡ true =
        ground arith in
      let place : base + off + k - base ≡ off + k = omega arith in
      let part : (leb off (off + k) && ltb (off + k) (off + len)) ≡ true = ground arith in
      rw (inside, place, part) (ap buf (omega arith)),
  λ d p out. elim (Bool-cases (d == dev && (leb base p && ltb p (base + size)))) [
    | inl h' ↦
        let device : d ≡ dev = ground arith in
        let part : (leb off (p - base) && ltb (p - base) (off + len)) ≡ false = ground arith in
        let inside : ltb (p - base) size ≡ true = ground arith in
        rw (h', part, inside, device) (ap (s.disk dev) (ground arith))
    | inr h' ↦ rw h' refl
  ],
)

-- A write that fits returns its length; the bytes stand on the disk at the position, no other byte of
-- the disk changes but in the sector of the inode, the position moves by the length, and the file
-- ends at the new position if it ended before.
pub rdwt_file-HasWritten :
    (s : Fs) (desc pin len : ℕ) (buf : ℕ → ℕ) (sb : SuperBlock)
    → Fits s desc pin len sb
    → (t : Fs) × (b : ℕ → ℕ) × (rdwt_file s writing desc pin len buf ≡ ok (len, t, b))
      × HasWritten s desc pin len buf sb t
unfolding transfer_chunk read_disk write_disk
rdwt_file-HasWritten s desc pin len buf sb f =
    let r = s.inode_table pin in
    let d = s.f_desc_table desc in
    let lo = r.i_start_sect + d.fd_pos / sector_size in
    let last = min (d.fd_pos + len) (r.i_nr_sects * sector_size) in
    let hi = r.i_start_sect + last / sector_size in
    let off = d.fd_pos % sector_size in
    let ends : last ≡ d.fd_pos + len = omega (arith, f.ends) in
    let x = one_chunk s writing desc pin len buf lo hi off in
    let run =
      rdwt_file-one_chunk s writing desc pin len buf lo hi off refl refl refl (omega arith)
        (omega (arith, f.span)) in
    let all : min len (min (hi + 1 - lo) fsbuf_sects * sector_size - off) ≡ len =
      omega (arith, f.span) in
    let moved : (x.fs.f_desc_table desc).fd_pos ≡ d.fd_pos + len = ground (arith, all) in
    let base = lo * sector_size in
    let total = min (hi + 1 - lo) fsbuf_sects * sector_size in
    let place : lo * sector_size + off ≡ data_start r + d.fd_pos = omega arith in
    let room : off + len ≤ min (hi + 1 - lo) fsbuf_sects * sector_size = omega (arith, f.span) in
    let (written, same) = chunk-bytes s r.i_dev base total off len buf x.fs room (
      ap
        (λ m.
          (write_disk
            (record (read_disk s r.i_dev base total) {
              fsbuf = copy_bytes (read_disk s r.i_dev base total).fsbuf off buf 0 m;
            })
            r.i_dev base total).disk)
        all) in
    let (t, e, h) =
      update_size-HasEnded desc pin x sb (get_super_block-cong s x.fs r.i_dev refl ∙ f.has_sb) in
    (
      t,
      x.buf,
      run ∙ e ∙ ap (λ n. ok (n, t, x.buf)) (omega (arith, all)),
      record {
        bytes = λ k lt.
            h.others r.i_dev (data_start r + d.fd_pos + k) (inr (inr (omega (arith, f.behind))))
            ∙ ap (λ p. x.fs.disk r.i_dev (p + k)) (sym place)
            ∙ written k lt;
        others = λ dev p out in_data.
            h.others dev p in_data
            ∙ same dev p (subst (λ b. (dev ≢ r.i_dev) ⊎ ((p < b) ⊎ (b + len ≤ p))) (sym place) out);
        position = ap (λ g. (g desc).fd_pos) h.descs ∙ moved;
        inode = h.inode ∙ ap (sized r) moved;
        super_block = h.super_block;
        filp = h.filp;
        file_desc =
            ap (λ g. g desc) h.descs
            ∙ rw (==_refl desc) (ap (λ y. record d { fd_pos = d.fd_pos + y }) all);
      },
    )
