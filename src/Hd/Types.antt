-- ===== src/Hd/Types.antt =====
-- include/hd.h and include/const.h: the commands of a drive, the partitions, and what the driver works
-- with. The drive is a parameter: what its ports answer and when it raises its interrupt.
use osin32bits.Base.{ℕ, ◌+◌, ◌-◌, ◌*◌, ◌/◌, ◌%◌, ◌^◌, Option, leb, ltb, if◌then◌else◌}

abbrev pub sector_size : ℕ
sector_size = 512

abbrev pub dev_open : ℕ
dev_open = 1001

abbrev pub dev_close : ℕ
dev_close = 1002

abbrev pub dev_read : ℕ
dev_read = 1003

abbrev pub dev_write : ℕ
dev_write = 1004

abbrev pub dev_ioctl : ℕ
dev_ioctl = 1005

abbrev pub dioctl_get_geo : ℕ
dioctl_get_geo = 1

abbrev pub nr_part_per_drive : ℕ
nr_part_per_drive = 4

abbrev pub nr_sub_per_part : ℕ
nr_sub_per_part = 16

abbrev pub nr_sub_per_drive : ℕ
nr_sub_per_drive = nr_sub_per_part * nr_part_per_drive

abbrev pub nr_prim_per_drive : ℕ
nr_prim_per_drive = nr_part_per_drive + 1

-- MAX_PRIM, for two drives.
abbrev pub max_prim : ℕ
max_prim = 2 * nr_prim_per_drive - 1

-- MINOR_hd1a
abbrev pub minor_hd1a : ℕ
minor_hd1a = 0x10

abbrev pub no_part : ℕ
no_part = 0x00

abbrev pub ext_part : ℕ
ext_part = 0x05

abbrev pub hz : ℕ
hz = 100

abbrev pub hd_timeout : ℕ
hd_timeout = 10000

abbrev pub partition_table_offset : ℕ
partition_table_offset = 0x1BE

abbrev pub ata_identify : ℕ
ata_identify = 0xEC

abbrev pub ata_read : ℕ
ata_read = 0x20

abbrev pub ata_write : ℕ
ata_write = 0x30

abbrev pub status_bsy : ℕ
status_bsy = 0x80

abbrev pub status_drq : ℕ
status_drq = 0x08

-- The ports of the drive that the driver writes to.
pub data Port : Type 0 where
  reg_features reg_nsector reg_lba_low reg_lba_mid reg_lba_high reg_device reg_cmd reg_dev_ctrl :
      Port

abbrev pub number : Port → ℕ
number reg_features = 0x1F1
number reg_nsector = 0x1F2
number reg_lba_low = 0x1F3
number reg_lba_mid = 0x1F4
number reg_lba_high = 0x1F5
number reg_device = 0x1F6
number reg_cmd = 0x1F7
number reg_dev_ctrl = 0x3F6

-- `struct hd_cmd`
pub record HdCmd : Type 0 where
  pub features : ℕ
  pub count : ℕ
  pub lba_low : ℕ
  pub lba_mid : ℕ
  pub lba_high : ℕ
  pub device : ℕ
  pub command : ℕ

-- `struct part_ent`: the fields that the driver reads.
pub record PartEnt : Type 0 where
  pub sys_id : ℕ
  pub start_sect : ℕ
  pub nr_sects : ℕ

-- `struct part_info`
pub record PartInfo : Type 0 where
  pub base : ℕ
  pub size : ℕ

-- `struct hd_info`; an index past an array reads whatever lies there.
pub record HdInfo : Type 0 where
  pub open_cnt : ℕ
  pub primary : ℕ → PartInfo
  pub logical : ℕ → PartInfo

-- A drive on the bus, with the clock. While the driver waits, `status s j` is the status register at
-- its `j`-th look and `ticks s j` the clock at its `j`-th question; a wait has at most `polls` looks.
-- `interrupt` is the state when the next interrupt has come, if one comes. The data register gives a
-- sector, and takes the first `n` bytes of what it is given.
pub record Drive : Type 1 where
  pub State : Type 0
  pub polls : ℕ
  pub status : State → ℕ → ℕ
  pub ticks : State → ℕ → ℕ
  pub out_byte : State → Port → ℕ → State
  pub interrupt : State → Option State
  pub port_read : State → (ℕ → ℕ) × State
  pub port_write : State → (ℕ → ℕ) → (n : ℕ) → State

-- What the driver works on: the drive, its tables and its buffer, and the bytes of memory by linear
-- address. The buffer of a request does not meet the buffer of the driver.
pub record Machine (a : Drive) : Type 0 where
  pub drive : a.State
  pub hd_info : ℕ → HdInfo
  pub hdbuf : ℕ → ℕ
  pub memory : ℕ → ℕ
  pub stack_cmd : HdCmd

-- `DRV_OF_DEV`; for a device between the primary and the logical partitions the quotient of the
-- negative number is 0.
unfoldable pub drv_of_dev : (dev : ℕ) → ℕ
drv_of_dev dev =
    if leb dev max_prim then dev / nr_prim_per_drive else (dev - minor_hd1a) / nr_sub_per_drive

-- `(device - MINOR_hd1a) % NR_SUB_PER_DRIVE`; a negative remainder keeps its 32 bits.
unfoldable pub logical_index : (device : ℕ) → ℕ
logical_index device =
    if ltb device minor_hd1a
    then device + 2 ^ 32 - minor_hd1a
    else (device - minor_hd1a) % nr_sub_per_drive

-- The partition of a device, by the test of `hd_rdwt` and `hd_ioctl`.
unfoldable pub part_of : HdInfo → (device : ℕ) → PartInfo
part_of h device =
    if ltb device max_prim then h.primary device else h.logical (logical_index device)
