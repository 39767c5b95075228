-- ===== src/Hd/Requests.antt =====
-- kernel/hd.c: what `hd_rdwt` does with a request.
use osin32bits.Base.{
  ℕ, ◌+◌, ◌-◌, ◌*◌, ◌/◌, ◌%◌, ◌^◌, ◌≤◌, ◌<◌, ◌≡◌, ◌≢◌, ap, ◌∙◌, true, false, ok, fault, out_of_fuel,
  assert, arith, ◌==◌, ltb,
}
use osin32bits.Proc.Types.{Message, Kernel, va2la}
use osin32bits.Hd.Types.{
  sector_size, dev_read, dev_write, ata_read, ata_write, reg_cmd, Drive, Machine, drv_of_dev,
  part_of,
}
use osin32bits.Hd.Ports.{lba_cmd, set_up, hd_cmd_out}
use osin32bits.Hd.Transfer.{transfer_sectors, hd_rdwt}
use osin32bits.Hd.Lawful.{idle, fetching, wanting, IsLawful}
use osin32bits.Hd.Commands.{asked, begin_read, begin_write, disk-begin, hd_cmd_out-ok}
use osin32bits.Hd.Reads.{HasFetched, transfer_sectors-HasFetched}
use osin32bits.Hd.Writes.{HasStored, transfer_sectors-HasStored}
use osin32bits.Hd.Stuck.{bind-ok, transfer_sectors-ne-ok, transfer_sectors-waits}

-- A request for `c` sectors of the first drive, `sect` the first of them, at the address `la`.
pub record IsRequest (a : Drive) (k : Kernel) (m : Machine a) (p : Message) (sect c la : ℕ)
    : Type 0 where
  pub device : drv_of_dev p.m3i4 ≡ 0
  pub whole : p.m3l1 % sector_size ≡ 0
  pub first : p.m3l1 / sector_size + (part_of (m.hd_info 0) p.m3i4).base ≡ sect
  pub count : p.m3i2 ≡ c * sector_size
  pub buffer : va2la k p.m3i3 p.m3p2 ≡ ok la
  pub small : sect < 2 ^ 28
  pub short : c < 2 ^ 22

module _ (a : Drive) (l : IsLawful a) (k : Kernel) (m : Machine a) (p : Message) (sect c la : ℕ)
    (v : IsRequest a k m p sect c la) (e : l.phase m.drive ≡ idle) where
  abbrev begun : (command : ℕ) → Machine a
  begun command = record m {
    drive = a.out_byte (set_up a m.drive (lba_cmd 0 sect c command)) reg_cmd command;
  }

  -- A request is a transfer after a command.
  hd_rdwt-read :
      (fuel : ℕ)
      → p.type ≡ dev_read
      → hd_rdwt a fuel k m p ≡ transfer_sectors a fuel true (begun ata_read) la (c * sector_size)
  unfolding hd_rdwt
  hd_rdwt-read fuel t =
      let in_range : ltb (p.m3l1 / sector_size) (2 ^ 64 - 2 ^ 31) ≡ true = ground (arith, v) in
      let aligned : (p.m3l1 % sector_size == 0) ≡ true = ground (arith, v) in
      let sector : (p.m3l1 / sector_size + (part_of (m.hd_info 0) p.m3i4).base) % 2 ^ 32 ≡ sect =
        omega (arith, v.first, v.small) in
      let whole : (p.m3i2 + sector_size - 1) / sector_size ≡ c = omega (arith, v.count) in
      let reads : (p.type == dev_read) ≡ true = ground arith in
      rw (
        v.device,
        in_range,
        aligned,
        sector,
        whole,
        reads,
        hd_cmd_out-ok a l m.drive (lba_cmd 0 sect c ata_read) e,
        v.buffer,
        v.count,
      )

  hd_rdwt-write :
      (fuel : ℕ)
      → p.type ≡ dev_write
      → hd_rdwt a fuel k m p ≡ transfer_sectors a fuel false (begun ata_write) la (c * sector_size)
  unfolding hd_rdwt
  hd_rdwt-write fuel t =
      let in_range : ltb (p.m3l1 / sector_size) (2 ^ 64 - 2 ^ 31) ≡ true = ground (arith, v) in
      let aligned : (p.m3l1 % sector_size == 0) ≡ true = ground (arith, v) in
      let sector : (p.m3l1 / sector_size + (part_of (m.hd_info 0) p.m3i4).base) % 2 ^ 32 ≡ sect =
        omega (arith, v.first, v.small) in
      let whole : (p.m3i2 + sector_size - 1) / sector_size ≡ c = omega (arith, v.count) in
      let reads : (p.type == dev_read) ≡ false = ground arith in
      rw (
        v.device,
        in_range,
        aligned,
        sector,
        whole,
        reads,
        hd_cmd_out-ok a l m.drive (lba_cmd 0 sect c ata_write) e,
        v.buffer,
        v.count,
      )

  -- A request to read at most 256 sectors on the drive returns: the sectors stand in memory at the
  -- buffer, no other byte of memory changes, the drive stores what it did, and it is idle again.
  pub hd_rdwt-HasFetched :
      (fuel : ℕ)
      → p.type ≡ dev_read
      → 0 < c
      → c ≤ 256
      → c < fuel
      → sect + c ≤ l.capacity
      → (m' : Machine a) × (hd_rdwt a fuel k m p ≡ ok m')
        × (l.phase m'.drive ≡ idle)
        × HasFetched a l m la sect c m'
  hd_rdwt-HasFetched fuel t pos max enough room =
      let all : asked c ≡ c = ground arith in
      let (m', run, end, f) =
        transfer_sectors-HasFetched a l c fuel (begun ata_read) la sect enough v.short
          (begin_read a l m.drive e sect c v.small (rw all room) ∙ ap (fetching sect) all) in
      (
        m',
        hd_rdwt-read fuel t ∙ run,
        end,
        record {
          disk = f.disk ∙ disk-begin a l m.drive e sect c ata_read;
          info = f.info;
          memory = λ x. rw (← disk-begin a l m.drive e sect c ata_read) (f.memory x);
        },
      )

  -- A request to write at most 256 sectors on the drive returns: the sectors hold the bytes of the
  -- buffer, no other byte of the drive changes, and neither does the memory, and the drive is idle
  -- again.
  pub hd_rdwt-HasStored :
      (fuel : ℕ)
      → p.type ≡ dev_write
      → 0 < c
      → c ≤ 256
      → c < fuel
      → sect + c ≤ l.capacity
      → (m' : Machine a) × (hd_rdwt a fuel k m p ≡ ok m')
        × (l.phase m'.drive ≡ idle)
        × HasStored a l m la sect c m'
  hd_rdwt-HasStored fuel t pos max enough room =
      let all : asked c ≡ c = ground arith in
      let (m', run, end, f) =
        transfer_sectors-HasStored a l c fuel (begun ata_write) la sect enough v.short
          (begin_write a l m.drive e sect c v.small (rw all room) ∙ ap (wanting sect) all) in
      (
        m',
        hd_rdwt-write fuel t ∙ run,
        end,
        record {
          memory = f.memory;
          info = f.info;
          disk = λ x. rw (← disk-begin a l m.drive e sect c ata_write) (f.disk x);
        },
      )

  -- A request to read more than 256 sectors asks the drive for fewer, and waits for ever after
  -- these, with any fuel.
  pub hd_rdwt-waits :
      (fuel : ℕ)
      → p.type ≡ dev_read
      → 256 < c
      → sect + asked c ≤ l.capacity
      → hd_rdwt a fuel k m p ≡ fault out_of_fuel
  hd_rdwt-waits fuel t many room =
      let fewer : asked c < c = ground arith in
      hd_rdwt-read fuel t
      ∙ transfer_sectors-waits a l (asked c) c fuel (begun ata_read) la sect fewer v.short
          (begin_read a l m.drive e sect c v.small room)

-- A request whose count is not whole sectors never returns, whatever the drive does.
pub hd_rdwt-ne-ok :
    (a : Drive) (fuel : ℕ) (k : Kernel) (m m' : Machine a) (p : Message)
    → p.m3i2 % sector_size ≢ 0
    → hd_rdwt a fuel k m p ≢ ok m'
unfolding hd_rdwt
hd_rdwt-ne-ok a fuel k m m' p h e =
    let (_, _, e1) = bind-ok (assert (ltb (p.m3l1 / sector_size) (2 ^ 64 - 2 ^ 31))) _ e in
    let (_, _, e2) = bind-ok (assert (p.m3l1 % sector_size == 0)) _ e1 in
    let (s, _, e3) = bind-ok (hd_cmd_out a m.drive _) _ e2 in
    let (la, _, e4) = bind-ok (va2la k p.m3i3 p.m3p2) _ e3 in
    transfer_sectors-ne-ok a fuel (p.type == dev_read) (record m { drive = s }) m' la p.m3i2 h e4
