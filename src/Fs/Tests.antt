-- ===== src/Fs/Tests.antt =====
-- The searches, the inodes and the map of inodes, on the sample device.
use osin32bits.Base.{ℕ, ◌<◌, ◌≡◌, refl, ◌≢◌, [], ◌∷◌, ok, arith, ◌==◌, if◌then◌else◌}
use osin32bits.Fs.Types.{root_dev, Inode, Fs}
use osin32bits.Fs.Sectors.{rd_sect}
use osin32bits.Fs.Inodes.{get_inode, sync_inode, load_inode, inode_block}
use osin32bits.Fs.Inodes.Table.{Got, get_inode-Got}
use osin32bits.Fs.Inodes.Stored.{stored}
use osin32bits.Fs.Inodes.Sync.{sync_inode-load_inode}
use osin32bits.Fs.Path.{strip_path, search_file}
use osin32bits.Fs.Path.Search.{search_file-first}
use osin32bits.Fs.Bitmap.{alloc_imap_bit}
use osin32bits.Fs.Bitmap.Imap.{Allocated, alloc_imap_bit-Allocated}
use osin32bits.Fs.Sample.{block, root, start, super_block-start, start-IsUnique}

get_inode-Got_example : Got start root_dev 5 (get_inode start root_dev 5)
get_inode-Got_example =
    get_inode-Got start root_dev 5 block start-IsUnique (λ e. absurd (omega (arith, e)))
      (super_block-start start refl)

-- The entry of "b" lies behind the end of the directory.
search_file-first_example : (search_file start (98 ∷ [])).0 ≡ 9
unfolding strip_path osin32bits.Fs.Path.copy_name osin32bits.Text.memcmp
search_file-first_example =
    search_file-first start (98 ∷ []) (98 ∷ []) 0 refl (λ e. absurd (omega (arith, e)))

sync_inode-load_inode_example :
    (t : Fs) × (sync_inode start 0 ≡ ok t)
    × ((x : Inode)
        → load_inode (rd_sect t root_dev (inode_block block 1)).fsbuf 1 x ≡ stored root x)
    × ((num : ℕ) (x : Inode)
        → 0 < num
        → 0 < 1
        → num ≢ 1
        → load_inode (rd_sect t root_dev (inode_block block num)).fsbuf num x
          ≡ load_inode (rd_sect start root_dev (inode_block block num)).fsbuf num x)
    × (t.inode_table ≡ start.inode_table)
sync_inode-load_inode_example =
    sync_inode-load_inode start 0 block (super_block-start start refl)
      (record { mode = omega arith; size = omega arith; start = omega arith; sects = omega arith })

-- The inodes 0 to 4 are in use.
abbrev mapped : Fs
mapped = record start { disk = λ d p. if p == 1024 then 0x1F else 0 }

alloc_imap_bit-Allocated_example : Allocated mapped root_dev (alloc_imap_bit mapped root_dev)
alloc_imap_bit-Allocated_example =
    alloc_imap_bit-Allocated mapped root_dev block (super_block-start mapped refl) (omega arith)
      (λ d p. ground arith)
