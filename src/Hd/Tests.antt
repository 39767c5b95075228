-- ===== src/Hd/Tests.antt =====
-- A drive with a plain and an extended partition, which holds the file system, and its requests.
use osin32bits.Base.{
  ℕ, zero, suc, ◌*◌, ◌+◌, ◌^◌, ◌<◌, ◌≡◌, ◌≢◌, refl, [], ◌∷◌, none, true, ok, fault, out_of_fuel,
  arith, ◌==◌, if◌then◌else◌,
}
use osin32bits.Proc.Sample.{kernel}
use osin32bits.Proc.Types.{va2la, ldt_seg_linear}
use osin32bits.Fs.Types.{Fs, root_dev}
use osin32bits.Fs.Sectors.{read_disk, write_disk}
use osin32bits.Fs.Sample.{bytes_at, no_inode, no_desc, block}
use osin32bits.Hd.Types.{dev_read, dev_write, PartInfo, Machine, drv_of_dev, logical_index, part_of}
use osin32bits.Hd.Transfer.{hd_rdwt}
use osin32bits.Hd.Partition.{partition, handle}
use osin32bits.Hd.Lawful.{idle}
use osin32bits.Hd.Tables.{tables}
use osin32bits.Hd.Entries.{is_used}
use osin32bits.Hd.Partitions.{HasParts, TablesBelow, partition-HasParts}
use osin32bits.Hd.Requests.{IsRequest, hd_rdwt-waits, hd_rdwt-ne-ok}
use osin32bits.Hd.Disk.{Shows, rw_sector, task_fs, handle-read_disk, handle-write_disk}
use osin32bits.Hd.Sample.{ram, ram-IsLawful}

abbrev disk : ℕ → ℕ
disk = bytes_at (
    (450, 0x99)
    ∷ (454, 1)
    ∷ (458, 9)
    ∷ (466, 5)
    ∷ (470, 100)
    ∷ (474, 100)
    ∷ (51650, 0x99)
    ∷ (51654, 4)
    ∷ (51658, 50)
    ∷ [])

abbrev no_info : PartInfo
no_info = record { base = 0; size = 0 }

abbrev machine : (ℕ → PartInfo) → Machine ram
machine logical = record {
  drive = record { bytes = disk; phase = idle; regs = λ _. 0 };
  hd_info = λ _. record { open_cnt = 0; primary = λ _. no_info; logical = logical };
  hdbuf = λ _. 0;
  stack_cmd = record {
    features = 1;
    count = 2;
    lba_low = 3;
    lba_mid = 4;
    lba_high = 5;
    device = 6;
    command = 7;
  };
  memory = λ _. 7;
}

-- The partition of the file system.
abbrev mounted : Machine ram
mounted = machine (λ i. if i == 16 then record { base = 104; size = 600 } else no_info)

abbrev view : Fs
view = record {
  inode_table = λ _. no_inode;
  f_desc_table = λ _. no_desc;
  super_block = λ _. block;
  fsbuf = λ _. 7;
  disk = λ d p. disk (104 * 512 + p);
  filp = λ _ _. none;
  root_inode = 0;
  opened = [];
}

mounted-Shows : Shows ram ram-IsLawful mounted root_dev 104 600 4096 view
mounted-Shows = record { free = refl; bytes = λ p h. refl; buffer = λ i h. refl }

rw_sector-IsRequest :
    (type c : ℕ)
    → c < 2 ^ 22
    → IsRequest ram kernel mounted
        (rw_sector type root_dev (2 * 512) (c * 512) task_fs 4096)
        106
        c
        4096
unfolding drv_of_dev part_of logical_index va2la ldt_seg_linear
rw_sector-IsRequest type c h = record {
  device = refl;
  whole = refl;
  first = refl;
  count = refl;
  buffer = refl;
  small = omega arith;
  short = h;
}

handle-read_disk_example :
    (m' : Machine ram) × (handle ram 9 kernel mounted
        (rw_sector dev_read root_dev (2 * 512) (3 * 512) task_fs 4096)
      ≡ ok m')
    × Shows ram ram-IsLawful m' root_dev 104 600 4096 (read_disk view root_dev (2 * 512) (3 * 512))
handle-read_disk_example =
    handle-read_disk ram ram-IsLawful kernel mounted root_dev 104 600 4096 4096 view mounted-Shows 2
      3 9 (rw_sector-IsRequest dev_read 3 (omega arith)) (omega arith) (omega arith) (omega arith)
      (omega arith) (omega arith)

handle-write_disk_example :
    (m' : Machine ram) × (handle ram 9 kernel mounted
        (rw_sector dev_write root_dev (2 * 512) (3 * 512) task_fs 4096)
      ≡ ok m')
    × Shows ram ram-IsLawful m' root_dev 104 600 4096 (write_disk view root_dev (2 * 512) (3 * 512))
handle-write_disk_example =
    handle-write_disk ram ram-IsLawful kernel mounted root_dev 104 600 4096 4096 view mounted-Shows
      2 3 9 (rw_sector-IsRequest dev_write 3 (omega arith)) (omega arith) (omega arith)
      (omega arith) (omega arith) (omega arith)

hd_rdwt-waits_example :
    hd_rdwt ram 1000 kernel mounted (rw_sector dev_read root_dev (2 * 512) (300 * 512) task_fs 4096)
    ≡ fault out_of_fuel
hd_rdwt-waits_example =
    hd_rdwt-waits ram ram-IsLawful kernel mounted
      (rw_sector dev_read root_dev (2 * 512) (300 * 512) task_fs 4096) 106 300 4096
      (rw_sector-IsRequest dev_read 300 (omega arith)) refl 1000 refl (omega arith) (omega arith)

hd_rdwt-ne-ok_example :
    hd_rdwt ram 1000 kernel mounted (rw_sector dev_read root_dev 0 100 task_fs 4096) ≢ ok mounted
hd_rdwt-ne-ok_example =
    hd_rdwt-ne-ok ram 1000 kernel mounted mounted (rw_sector dev_read root_dev 0 100 task_fs 4096)
      (omega arith)

second_used : is_used disk 1 ≡ true
unfolding is_used
second_used = refl

tables_below : (i : ℕ) → i < 4 → TablesBelow ram ram-IsLawful disk i
unfolding tables
tables_below zero h e = cc
tables_below (suc zero) h e = (omega arith, tt)
tables_below (suc (suc zero)) h e = cc
tables_below (suc (suc (suc zero))) h e = cc
tables_below (suc (suc (suc (suc i)))) h e = absurd (omega arith)

partition-HasParts_example :
    (m' : Machine ram) × (partition ram (machine (λ _. no_info)) 0 ≡ ok m')
    × HasParts ram ram-IsLawful disk (machine (λ _. no_info)) 0 4 m'
partition-HasParts_example =
    partition-HasParts ram ram-IsLawful disk (machine (λ _. no_info)) 1 (omega arith) second_used
      tables_below (omega arith) (omega arith) refl refl
