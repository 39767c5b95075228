-- ===== src/Hd/Transfer.antt =====
-- kernel/hd.c `hd_rdwt` and `hd_close`. A negative count keeps its 32 bits.
use osin32bits.Base.{
  ℕ, zero, suc, ◌+◌, ◌-◌, ◌/◌, ◌%◌, ◌^◌, Bool, ◌&&◌, Run, ok, fault, panic, out_of_fuel, ◌>>=◌,
  ◌>>◌, assert, ◌==◌, ltb, leb, if◌then◌else◌, min, update,
}
use osin32bits.Proc.Types.{Message, Kernel, va2la}
use osin32bits.Hd.Types.{
  sector_size, dev_read, ata_read, ata_write, status_drq, Drive, Machine, drv_of_dev, part_of,
}
use osin32bits.Hd.Ports.{waitfor, hd_cmd_out, interrupt_wait, lba_cmd}

-- `phys_copy` to memory.
abbrev pub copy_out : (memory : ℕ → ℕ) → (dst : ℕ) → (ℕ → ℕ) → (n : ℕ) → ℕ → ℕ
copy_out memory dst b n x = if leb dst x && ltb x (dst + n) then b (x - dst) else memory x

-- `min(SECTOR_SIZE, bytes_left)`, of ints.
abbrev pub round_bytes : (bytes_left : ℕ) → ℕ
round_bytes bytes_left = if ltb bytes_left (2 ^ 31) then min sector_size bytes_left else bytes_left

-- The body of the loop, for a read and for a write.
unfoldable pub read_sector : (a : Drive) → Machine a → (la bytes : ℕ) → Run (Machine a)
read_sector a m la bytes = do
  s ← interrupt_wait a m.drive
  let (b, s') = a.port_read s
  let hdbuf : ℕ → ℕ = λ i. if ltb i sector_size then b i else m.hdbuf i
  ok (record m { drive = s'; hdbuf = hdbuf; memory = copy_out m.memory la hdbuf bytes })

unfoldable pub write_sector : (a : Drive) → Machine a → (la bytes : ℕ) → Run (Machine a)
write_sector a m la bytes = do
  asked ← waitfor a m.drive status_drq status_drq
  if asked
      then (do
        s ← interrupt_wait a (a.port_write m.drive (λ i. m.memory (la + i)) bytes)
        ok (record m { drive = s }))
      else fault panic

-- `while (bytes_left)`, on fuel.
unfoldable pub transfer_sectors :
    (a : Drive) → (fuel : ℕ) → (reads : Bool) → Machine a → (la bytes_left : ℕ) → Run (Machine a)
transfer_sectors a zero reads m la bytes_left = fault out_of_fuel
transfer_sectors a (suc fuel) reads m la bytes_left =
    let bytes = round_bytes bytes_left in
    let round = if reads then read_sector a m la bytes else write_sector a m la bytes in
    let rest = round >>= λ m'.
    transfer_sectors a fuel reads m' (la + sector_size)
      ((bytes_left + 2 ^ 32 - sector_size) % 2 ^ 32) in
    if bytes_left == 0 then ok m else rest

-- `hd_rdwt`, for a count that is not negative; 1 << 31 is a negative int, which the comparison takes for a u64.
unfoldable pub hd_rdwt : (a : Drive) → (fuel : ℕ) → Kernel → Machine a → Message → Run (Machine a)
hd_rdwt a fuel k m p = do
  let drive = drv_of_dev p.m3i4
  assert (ltb (p.m3l1 / sector_size) (2 ^ 64 - 2 ^ 31))
  assert (p.m3l1 % sector_size == 0)
  let sect_nr = (p.m3l1 / sector_size + (part_of (m.hd_info drive) p.m3i4).base) % 2 ^ 32
  let reads = p.type == dev_read
  s ← hd_cmd_out a m.drive (
      lba_cmd drive sect_nr ((p.m3i2 + sector_size - 1) / sector_size)
        (if reads then ata_read else ata_write))
  la ← va2la k p.m3i3 p.m3p2
  transfer_sectors a fuel reads (record m { drive = s }) la p.m3i2

-- `hd_close`
unfoldable pub hd_close : (a : Drive) → Machine a → (device : ℕ) → Run (Machine a)
hd_close a m device = do
  let drive = drv_of_dev device
  assert (drive == 0)
  let h = m.hd_info drive
  ok (record m {
    hd_info = update m.hd_info drive (record h { open_cnt = (h.open_cnt + 2 ^ 32 - 1) % 2 ^ 32 });
  })
