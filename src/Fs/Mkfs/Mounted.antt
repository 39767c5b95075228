-- ===== src/Fs/Mkfs/Mounted.antt =====
-- fs/main.c `init_fs`: the root of a device that had no file system.
use osin32bits.Base.{
  ℕ, ◌+◌, ◌^◌, ◌<◌, ◌≡◌, refl, sym, ap, ◌∙◌, ◌≢◌, Option, some, false, Run, ok, fault, arith,
  update, ==_refl, ==_ne,
}
use osin32bits.Fs.Types.{root_dev, Inode, SuperBlock, Fs}
use osin32bits.Fs.Sectors.{rd_sect, disk-rd_sect, inode_table-rd_sect, rd_sect-SameButBuffer, get32}
use osin32bits.Fs.Inodes.{get_super_block-cong, get_super_block, get_inode, inode_block, load_inode}
use osin32bits.Fs.Inodes.Table.{holds, Got, shared, loaded, no_slot, get_inode-Got}
use osin32bits.Fs.Mkfs.{smap_sects, magic_v1, clear_tables, mount_root, init_fs}
use osin32bits.Fs.Mkfs.Fresh.{IsMade, mkfs-IsMade}
use osin32bits.Fs.Mkfs.Fields.{
  mounted, read_super_block-mounted, get_super_block-mounted, new_root, new_block,
  load_super_block-new_block, root_field,
}

-- A state with the new file system, mounted.
pub record HasRoot (size : ℕ) (t : Fs) : Type 0 where
  pub block : get_super_block t root_dev ≡ ok (new_block size)
  pub root : t.inode_table t.root_inode ≡ new_root size

abbrev from_ok : SuperBlock → Run SuperBlock → SuperBlock
from_ok d (ok sb) = sb
from_ok d (fault e) = d

no_holder :
    (t : ℕ → Inode) → ((i : ℕ) → (t i).i_cnt ≡ 0) → (j dev num : ℕ) → holds (t j) dev num ≡ false
no_holder t h j dev num = rw (h j) refl

load_root :
    (s t u : Fs) (size : ℕ) (r : Inode)
    → IsMade s size t
    → u.disk ≡ t.disk
    → size < 2 ^ 32
    → load_inode
        (rd_sect u root_dev (inode_block (new_block size) 1)).fsbuf
        1
        (record r { i_dev = root_dev; i_num = 1; i_cnt = 1 })
      ≡ new_root size
load_root s t u size r made e h =
    let place : inode_block (new_block size) 1 ≡ 3 + smap_sects size = omega arith in
    let f0 = root_field s t u size 0 made e (omega arith) (omega arith) in
    let f1 = root_field s t u size 1 made e (omega arith) (omega arith) in
    let f2 = root_field s t u size 2 made e (omega arith) (omega arith) in
    let f3 = root_field s t u size 3 made e (omega arith) (omega arith) in
    rw (place, f0, f1, f2, f3) refl

update_self : (f : ℕ → Inode) (p : ℕ) (r : Inode) → update f p r p ≡ r
update_self f p r = rw (==_refl p) refl

get_inode-root :
    (s t m : Fs) (size : ℕ)
    → IsMade s size t
    → m.disk ≡ t.disk
    → size < 2 ^ 32
    → ((i : ℕ) → (m.inode_table i).i_cnt ≡ 0)
    → get_super_block m root_dev ≡ ok (new_block size)
    → (p : ℕ) × (v : Fs) × (get_inode m root_dev 1 ≡ ok (some p, v))
      × (v.inode_table p ≡ new_root size)
      × (v.super_block ≡ m.super_block)
unfolding rd_sect
get_inode-root s t m size made e h unused has_sb = by_got (
    get_inode-Got m root_dev 1 (new_block size)
      (λ p q dev num hp hq a b.
        absurd (ground (arith, a, no_holder m.inode_table unused p dev num)))
      (λ x. absurd (omega (arith, x))) has_sb)
  where
    by_got :
        {r : Run (Option ℕ × Fs)}
        → Got m root_dev 1 r
        → (p : ℕ) × (v : Fs) × (r ≡ ok (some p, v))
          × (v.inode_table p ≡ new_root size)
          × (v.super_block ≡ m.super_block)
    by_got (shared p l held v ev _) =
        absurd (ground (arith, held, no_holder m.inode_table unused p root_dev 1))
    by_got (loaded p l free others sb its_sb v ev _) =
        let same : sb ≡ new_block size = ap (from_ok (new_block size)) (sym its_sb ∙ has_sb) in
        (
          p,
          v,
          refl,
          ap (λ x. x.inode_table p) ev
              ∙ update_self m.inode_table p _
              ∙ ap
                  (λ b.
                    load_inode (rd_sect m root_dev (inode_block b 1)).fsbuf 1
                      (record (m.inode_table p) { i_dev = root_dev; i_num = 1; i_cnt = 1 }))
                  same
              ∙ load_root s t m size (m.inode_table p) made e h,
          ap (λ x. x.super_block) ev,
        )
    by_got (no_slot live others) = absurd (live 0 (omega arith) (unused 0))

mount_root-HasRoot :
    (s t : Fs) (size : ℕ)
    → IsMade s size t
    → size < 2 ^ 32
    → ((i : ℕ) → (s.super_block i).sb_dev ≡ 0)
    → ((i : ℕ) → (s.inode_table i).i_cnt ≡ 0)
    → (u : Fs) × (mount_root t ≡ ok u) × HasRoot size u
unfolding mount_root
mount_root-HasRoot s t size made h no_block unused =
    let m = mounted t root_dev in
    let reads =
      read_super_block-mounted t root_dev
        (ap (λ f. (f 0).sb_dev) made.tables.super_block ∙ no_block 0) in
    let has_sb =
      get_super_block-mounted t root_dev ∙ ap ok (load_super_block-new_block s t size made h) in
    let (p, v, e, root, blocks) =
      get_inode-root s t m size made (disk-rd_sect t root_dev 1) h
        (λ i.
          ap (λ f. (f i).i_cnt) (inode_table-rd_sect t root_dev 1 ∙ made.tables.inode_table)
          ∙ unused i)
        has_sb in
    (
      record v { root_inode = p },
      rw (reads, has_sb, e) refl,
      record {
        block = get_super_block-cong m (record v { root_inode = p }) root_dev blocks ∙ has_sb;
        root = root;
      },
    )

-- On a device of less than 2 ^ 32 sectors without the magic number, `init_fs` makes a file system and
-- returns with its super block in the table and its root inode, a directory of four entries, in the
-- slot of the root.
pub init_fs-HasRoot :
    (s : Fs) (size : ℕ)
    → size < 2 ^ 32
    → get32 (rd_sect (clear_tables s) root_dev 1).fsbuf 0 ≢ magic_v1
    → (u : Fs) × (init_fs s size ≡ ok u) × HasRoot size u
unfolding init_fs
init_fs-HasRoot s size h fresh =
    let t = rd_sect (clear_tables s) root_dev 1 in
    let (v, e, made) = mkfs-IsMade t size in
    let (u, e', root) =
      mount_root-HasRoot t v size made h
        (λ i.
          ap (λ x. (x.super_block i).sb_dev) (rd_sect-SameButBuffer (clear_tables s) root_dev 1))
        (λ i.
          ap (λ x. (x.inode_table i).i_cnt) (rd_sect-SameButBuffer (clear_tables s) root_dev 1)) in
    (u, rw (==_ne (get32 t.fsbuf 0) magic_v1 fresh, e) e', root)
