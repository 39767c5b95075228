-- ===== src/Hd/Partition.antt =====
-- kernel/hd.c: the partition tables, and the rest of the driver's requests.
use osin32bits.Base.{
  ℕ, zero, suc, ◌+◌, ◌-◌, ◌*◌, ◌%◌, ◌^◌, ◌||◌, not, Run, ok, fault, assertion, ◌>>=◌, ◌>>◌, assert,
  ◌==◌, ltb, if◌then◌else◌, update,
}
use osin32bits.Proc.Types.{Message, Kernel, va2la}
use osin32bits.Proc.Ipc.{inform_int}
use osin32bits.Fs.Sectors.{get32, put32}
use osin32bits.Hd.Types.{
  sector_size, nr_part_per_drive, nr_sub_per_part, nr_prim_per_drive, no_part, ext_part,
  partition_table_offset, ata_identify, ata_read, dev_open, dev_close, dev_read, dev_write,
  dev_ioctl, dioctl_get_geo, Drive, Machine, PartEnt, PartInfo, drv_of_dev, part_of,
}
use osin32bits.Hd.Ports.{hd_cmd_out, interrupt_wait, lba_cmd, make_device_reg}
use osin32bits.Hd.Transfer.{hd_rdwt, hd_close}

-- Entry `i` of the table of a sector.
abbrev pub part_ent : (ℕ → ℕ) → (i : ℕ) → PartEnt
part_ent b i =
    let o = partition_table_offset + 16 * i in
    record { sys_id = b (o + 4); start_sect = get32 b (o + 8); nr_sects = get32 b (o + 12) }

-- A sector of the drive in the buffer of the driver.
abbrev pub fetch : (a : Drive) → Machine a → a.State → Machine a
fetch a m s = record m {
  drive = (a.port_read s).1;
  hdbuf = λ i. if ltb i sector_size then (a.port_read s).0 i else m.hdbuf i;
}

-- `get_part_table`; the table is read from the buffer that it leaves.
unfoldable pub get_part_table : (a : Drive) → Machine a → (drive sect_nr : ℕ) → Run (Machine a)
get_part_table a m drive sect_nr = do
  s ← hd_cmd_out a m.drive (lba_cmd drive sect_nr 1 ata_read)
  s' ← interrupt_wait a s
  ok (fetch a m s')

abbrev pub set_primary : (a : Drive) → Machine a → (drive i : ℕ) → PartInfo → Machine a
set_primary a m drive i p =
    let h = m.hd_info drive in
    record m { hd_info = update m.hd_info drive (record h { primary = update h.primary i p }) }

abbrev pub set_logical : (a : Drive) → Machine a → (drive i : ℕ) → PartInfo → Machine a
set_logical a m drive i p =
    let h = m.hd_info drive in
    record m { hd_info = update m.hd_info drive (record h { logical = update h.logical i p }) }

-- The loop of `partition` over the logical partitions, with `n` to go from the `i`-th on; the next
-- table is in sector `s`.
unfoldable pub logical_parts :
    (a : Drive) → Machine a → (drive ext_start_sect nr_lst_sub n i s : ℕ) → Run (Machine a)
logical_parts a m drive ext_start_sect nr_lst_sub zero i s = ok m
logical_parts a m drive ext_start_sect nr_lst_sub (suc n) i s = do
  t ← get_part_table a m drive s
  let first = part_ent t.hdbuf 0
  let second = part_ent t.hdbuf 1
  let u =
      set_logical a t drive (nr_lst_sub + i)
        (record { base = (s + first.start_sect) % 2 ^ 32; size = first.nr_sects })
  let rest =
      logical_parts a u drive ext_start_sect nr_lst_sub n (i + 1)
        ((ext_start_sect + second.start_sect) % 2 ^ 32)
  if second.sys_id == no_part then ok u else rest

-- `partition(device, P_EXTENDED)`
unfoldable pub extended_part : (a : Drive) → Machine a → (device : ℕ) → Run (Machine a)
extended_part a m device =
    let drive = drv_of_dev device in
    let j = device % nr_prim_per_drive in
    let ext_start_sect = ((m.hd_info drive).primary j).base in
    logical_parts a m drive ext_start_sect ((j - 1) * nr_sub_per_part) nr_sub_per_part 0
      ext_start_sect

-- What the loop over the primary partitions does with entry `i`.
unfoldable pub primary_part : (a : Drive) → Machine a → (device i : ℕ) → PartEnt → Run (Machine a)
primary_part a m device i e =
    let dev_nr = i + 1 in
    let u =
      set_primary a m (drv_of_dev device) dev_nr
        (record { base = e.start_sect; size = e.nr_sects }) in
    if e.sys_id == ext_part then extended_part a u (device + dev_nr) else ok u

-- This loop, with `n` entries of the table to go from the `i`-th on; it counts the entries in use.
unfoldable pub primary_parts :
    (a : Drive)
    → Machine a
    → (device : ℕ) → (part_tbl : ℕ → PartEnt) → (n i nr_prim_parts : ℕ) → Run (ℕ × Machine a)
primary_parts a m device part_tbl zero i nr_prim_parts = ok (nr_prim_parts, m)
primary_parts a m device part_tbl (suc n) i nr_prim_parts = do
  let e = part_tbl i
  let unused = e.sys_id == no_part
  u ← if unused then ok m else primary_part a m device i e
  primary_parts a u device part_tbl n (i + 1) (if unused then nr_prim_parts else nr_prim_parts + 1)

-- `partition(device, P_PRIMARY)`
unfoldable pub partition : (a : Drive) → Machine a → (device : ℕ) → Run (Machine a)
partition a m device = do
  let drive = drv_of_dev device
  t ← get_part_table a m drive drive
  (nr_prim_parts, u) ← primary_parts a t device (part_ent t.hdbuf) nr_part_per_drive 0 0
  assert (not (nr_prim_parts == 0))
  ok u

-- `hd_identify`, without what it prints.
unfoldable pub hd_identify : (a : Drive) → Machine a → (drive : ℕ) → Run (Machine a)
hd_identify a m drive = do
  s ←
      hd_cmd_out a m.drive
        (record m.stack_cmd { device = make_device_reg 0 drive 0; command = ata_identify })
  s' ← interrupt_wait a s
  let t = fetch a m s'
  let word : ℕ → ℕ = λ k. t.hdbuf (2 * k) + t.hdbuf (2 * k + 1) * 2 ^ 8
  ok (set_primary a t drive 0 (record { base = 0; size = word 61 * 2 ^ 16 + word 60 }))

-- `hd_open`, without what it prints.
unfoldable pub hd_open : (a : Drive) → Machine a → (device : ℕ) → Run (Machine a)
hd_open a m device = do
  let drive = drv_of_dev device
  assert (drive == 0)
  t ← hd_identify a m drive
  let h = t.hd_info drive
  let u = record t {
    hd_info = update t.hd_info drive (record h { open_cnt = (h.open_cnt + 1) % 2 ^ 32 });
  }
  if h.open_cnt == 0 then partition a u (drive * (nr_part_per_drive + 1)) else ok u

-- `hd_ioctl`
unfoldable pub hd_ioctl : (a : Drive) → Kernel → Machine a → Message → Run (Machine a)
hd_ioctl a k m p =
    if p.m3i2 == dioctl_get_geo
    then (do
      dst ← va2la k p.m3i3 p.m3p2
      let geo = part_of (m.hd_info (drv_of_dev p.m3i4)) p.m3i4
      ok (record m { memory = put32 (put32 m.memory dst geo.base) (dst + 4) geo.size }))
    else fault assertion

-- The `switch` of `task_hd`; `spin` does not come back.
unfoldable pub handle : (a : Drive) → (fuel : ℕ) → Kernel → Machine a → Message → Run (Machine a)
handle a fuel k m p =
    if p.type == dev_open
    then hd_open a m p.m3i4
    else (if p.type == dev_close
        then hd_close a m p.m3i4
        else (if (p.type == dev_read) || (p.type == dev_write)
            then hd_rdwt a fuel k m p
            else (if p.type == dev_ioctl then hd_ioctl a k m p else fault assertion)))

abbrev pub task_hd : ℕ
task_hd = 2

-- `init_hd`, for the number of drives that the BIOS has found, without the interrupt lines.
unfoldable pub init_hd : (a : Drive) → (nr_drives : ℕ) → Machine a → Run (Machine a)
init_hd a nr_drives m = do
  assert (not (nr_drives == 0))
  let no_info : PartInfo = record { base = 0; size = 0 }
  ok (record m {
    hd_info =
        update m.hd_info 0
          (record { open_cnt = 0; primary = λ i. no_info; logical = λ i. no_info });
  })

-- `hd_handler`, without the status that it reads.
unfoldable pub hd_handler : Kernel → Run Kernel
hd_handler k = inform_int k task_hd
