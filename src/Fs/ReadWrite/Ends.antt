-- ===== src/Fs/ReadWrite/Ends.antt =====
-- fs/read_write.c `do_rdwt`: its loop ends.
use osin32bits.Base.{
  ℕ, zero, suc, ◌+◌, ◌-◌, ◌/◌, ◌%◌, ◌≤◌, ◌<◌, ◌≡◌, refl, ap, ◌∙◌, inl, inr, true, false, Run, ok,
  fault, out_of_fuel, arith, leb, ltb, min, Bool-cases,
}
use osin32bits.Fs.Types.{sector_size, SuperBlock, Fs}
use osin32bits.Fs.Sectors.{max_request_sects, read_disk, write_disk}
use osin32bits.Fs.Inodes.{get_super_block-cong, get_super_block}
use osin32bits.Fs.ReadWrite.{
  Direction, reading, writing, Transfer, fsbuf_sects, first_pos, last_pos, transfer_chunk,
  request_chunk, transfer, rdwt_file,
}
use osin32bits.Fs.ReadWrite.Write.{update_size-HasEnded}

-- What the loop keeps.
record Keeps (x y : Transfer) : Type 0 where
  inode_table : y.fs.inode_table ≡ x.fs.inode_table
  super_block : y.fs.super_block ≡ x.fs.super_block
  total : y.bytes_rw + y.bytes_left ≡ x.bytes_rw + x.bytes_left

transfer_chunk-Keeps :
    (dir : Direction) (dev desc chunk i : ℕ) (x : Transfer)
    → Keeps x (transfer_chunk dir dev desc chunk i x)
unfolding transfer_chunk read_disk write_disk
transfer_chunk-Keeps reading dev desc chunk i x = record {
  inode_table = refl;
  super_block = refl;
  total = omega arith;
}
transfer_chunk-Keeps writing dev desc chunk i x = record {
  inode_table = refl;
  super_block = refl;
  total = omega arith;
}

transfer-step :
    (fuel : ℕ) (dir : Direction) (dev desc chunk last i : ℕ) (x : Transfer)
    → leb i last ≡ true
    → chunk ≤ max_request_sects
    → transfer (suc fuel) dir dev desc chunk last i x
      ≡ transfer fuel dir dev desc chunk last (i + chunk) (transfer_chunk dir dev desc chunk i x)
unfolding transfer request_chunk
transfer-step fuel dir dev desc chunk last i x goes few =
    let ends : leb chunk max_request_sects ≡ true = ground arith in rw (goes, ends) refl

transfer-Keeps :
    (fuel : ℕ) (dir : Direction) (dev desc chunk last i : ℕ) (x : Transfer)
    → ((i ≤ last) → 0 < chunk)
    → chunk ≤ max_request_sects
    → last < i + fuel
    → (y : Transfer) × (transfer (suc fuel) dir dev desc chunk last i x ≡ ok y) × Keeps x y
unfolding transfer
transfer-Keeps zero dir dev desc chunk last i x pos few enough =
    let stops : leb i last ≡ false = ground arith in
    rw stops (x, refl, record { inode_table = refl; super_block = refl; total = refl })
transfer-Keeps (suc fuel) dir dev desc chunk last i x pos few enough =
    elim (Bool-cases (leb i last)) [
      | inr stops ↦
          rw stops (x, refl, record { inode_table = refl; super_block = refl; total = refl })
      | inl goes ↦
          let first = transfer_chunk-Keeps dir dev desc chunk i x in
          let goes_on = pos (ground arith) in
          let (y, e, k) =
            transfer-Keeps fuel dir dev desc chunk last (i + chunk)
              (transfer_chunk dir dev desc chunk i x) (λ h. goes_on) few (omega arith) in
          (
            y,
            transfer-step (suc fuel) dir dev desc chunk last i x goes few ∙ e,
            record {
              inode_table = k.inode_table ∙ first.inode_table;
              super_block = k.super_block ∙ first.super_block;
              total = k.total ∙ first.total;
            },
          )
    ]

-- The first sector that `rdwt_file` asks for, and the last.
abbrev pub first_sect : Fs → Direction → (desc pin : ℕ) → ℕ
first_sect s dir desc pin =
    (s.inode_table pin).i_start_sect + first_pos dir (s.f_desc_table desc) / sector_size

abbrev pub last_sect : Fs → Direction → (desc pin len : ℕ) → ℕ
last_sect s dir desc pin len =
    (s.inode_table pin).i_start_sect
    + last_pos dir (s.inode_table pin) (first_pos dir (s.f_desc_table desc)) len / sector_size

-- The outcomes of `rdwt_file`.
pub data Ended (s : Fs) (dir : Direction) (desc pin len : ℕ) : Run (ℕ × Fs × (ℕ → ℕ)) → Type 0 where
  -- The sectors are few: it returns a count.
  returned :
      (n : ℕ) (t : Fs) (b : ℕ → ℕ)
      → last_sect s dir desc pin len < first_sect s dir desc pin + max_request_sects
      → n ≤ len
      → Ended s dir desc pin len (ok (n, t, b))
  -- Its first request never ends.
  stuck :
      first_sect s dir desc pin + max_request_sects ≤ last_sect s dir desc pin len
      → Ended s dir desc pin len (fault out_of_fuel)

transfer-stuck :
    (fuel : ℕ) (dir : Direction) (dev desc chunk last i : ℕ) (x : Transfer)
    → i ≤ last
    → max_request_sects < chunk
    → transfer (suc fuel) dir dev desc chunk last i x ≡ fault out_of_fuel
unfolding transfer request_chunk
transfer-stuck fuel dir dev desc chunk last i x h many =
    let goes : leb i last ≡ true = ground arith in
    let waits : leb chunk max_request_sects ≡ false = ground arith in rw (goes, waits) refl

-- For a file on a device with a super block, in both directions, `rdwt_file` returns if its sectors
-- span at most 256, with a count that is not above what is asked for; if they span more, the first
-- request to the driver of the disk waits for ever.
pub rdwt_file-Ended :
    (s : Fs) (dir : Direction) (desc pin len : ℕ) (buf : ℕ → ℕ) (sb : SuperBlock)
    → get_super_block s (s.inode_table pin).i_dev ≡ ok sb
    → Ended s dir desc pin len (rdwt_file s dir desc pin len buf)
unfolding rdwt_file
rdwt_file-Ended s dir desc pin len buf sb has_sb =
    let r = s.inode_table pin in
    let lo = first_sect s dir desc pin in
    let hi = last_sect s dir desc pin len in
    let chunk = min (hi + 1 - lo) fsbuf_sects in
    let start : Transfer = record {
      fs = s;
      buf = buf;
      off = first_pos dir (s.f_desc_table desc) % sector_size;
      bytes_rw = 0;
      bytes_left = len;
    } in
    elim (Bool-cases (ltb hi (lo + max_request_sects))) [
      | inl few ↦
          let near : hi < lo + max_request_sects = ground (arith, few) in
          let (x, e, k) =
            transfer-Keeps (suc (hi - lo)) dir r.i_dev desc chunk hi lo start (λ h. omega arith)
              (omega (arith, near)) (omega arith) in
          let inode = ap (λ f. f pin) k.inode_table in
          let x_sb =
            ap (λ i. get_super_block x.fs i.i_dev) inode
            ∙ get_super_block-cong s x.fs r.i_dev k.super_block
            ∙ has_sb in
          let (t, e', h) = update_size-HasEnded desc pin x sb x_sb in
          rw (e, e') (returned x.bytes_rw t x.buf near (omega (arith, k.total)))
      | inr many ↦
          let far : lo + max_request_sects ≤ hi = ground (arith, many) in
          rw
            (transfer-stuck (suc (hi - lo)) dir r.i_dev desc chunk hi lo start (omega (arith, far))
              (omega (arith, far)))
            (stuck far)
    ]
