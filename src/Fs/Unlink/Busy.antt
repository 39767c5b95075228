-- ===== src/Fs/Unlink/Busy.antt =====
-- fs/link.c `do_unlink`: a file that is in use.
use osin32bits.Base.{
  ℕ, ◌+◌, ◌<◌, ◌≡◌, refl, sym, ap, subst, ◌∙◌, ◌≢◌, Option, none, some, List, [], ◌∷◌, length, true,
  not, ◌||◌, Run, ok, arith, ◌==◌, ltb, update, ==_ne,
}
use osin32bits.Text.{strcmp}
use osin32bits.Fs.Types.{nr_inode, i_regular, max_path, SuperBlock, Fs}
use osin32bits.Fs.Inodes.{set_inode, get_super_block, get_super_block-cong, get_inode}
use osin32bits.Fs.Inodes.Table.{holds, IsUnique, Got, shared, loaded, no_slot, get_inode-Got}
use osin32bits.Fs.Path.{slash, strip_path, search_file}
use osin32bits.Fs.Path.Search.{search_file-SameButBuffer}
use osin32bits.Fs.Unlink.{unlink_found, do_unlink}

-- A refused unlink: the disk is as before, and the inode in the slot `j` has one more user.
pub record IsRefused (s : Fs) (j : ℕ) (t : Fs) : Type 0 where
  pub disk : t.disk ≡ s.disk
  pub count : (t.inode_table j).i_cnt ≡ (s.inode_table j).i_cnt + 1

-- The inode that is in use is found in its slot.
get_inode-held :
    (s : Fs) (dev nr : ℕ) (sb : SuperBlock) (j : ℕ)
    → IsUnique s.inode_table
    → nr ≢ 0
    → get_super_block s dev ≡ ok sb
    → j < nr_inode
    → holds (s.inode_table j) dev nr ≡ true
    → get_inode s dev nr
      ≡ ok
          (some j, set_inode s j (record (s.inode_table j) { i_cnt = (s.inode_table j).i_cnt + 1 }))
get_inode-held s dev nr sb j u ne has_sb below held = by_got (get_inode-Got s dev nr sb u ne has_sb)
  where
    by_got :
        {r : Run (Option ℕ × Fs)}
        → Got s dev nr r
        → r
          ≡ ok (
            some j,
            set_inode s j (record (s.inode_table j) { i_cnt = (s.inode_table j).i_cnt + 1 }),
          )
    by_got (shared p h e t et _) = let same = u p j dev nr h below e held in rw (et, same) refl
    by_got (loaded p h e others sb' _ t et _) = absurd (ground (arith, held, others j below))
    by_got (no_slot live others) = absurd (ground (arith, held, others j below))

unlink_found-IsRefused :
    (s : Fs) (dir nr : ℕ) (sb : SuperBlock) (j : ℕ)
    → IsUnique s.inode_table
    → nr ≢ 0
    → get_super_block s (s.inode_table dir).i_dev ≡ ok sb
    → j < nr_inode
    → holds (s.inode_table j) (s.inode_table dir).i_dev nr ≡ true
    → (t : Fs) × (unlink_found s dir nr ≡ ok (none, t)) × IsRefused s j t
unfolding unlink_found
unlink_found-IsRefused s dir nr sb j u ne has_sb below held =
    let got = get_inode-held s (s.inode_table dir).i_dev nr sb j u ne has_sb below held in
    let r = record (s.inode_table j) { i_cnt = (s.inode_table j).i_cnt + 1 } in
    let x = update s.inode_table j r j in
    let busy : (not (x.i_mode == i_regular) || ltb 1 x.i_cnt) ≡ true = ground (arith, held) in
    rw (got, busy) (_, refl, record { disk = refl; count = ground arith })

-- Behind the checks of the path, `do_unlink` goes on with the inode that the search finds.
do_unlink-unlink_found :
    (s s1 : Fs) (path name : List ℕ) (dir nr : ℕ)
    → length path < max_path
    → strcmp path (slash ∷ []) ≢ 0
    → search_file s path ≡ (nr, s1)
    → nr ≢ 0
    → strip_path s1 (some path) ≡ some (name, dir)
    → do_unlink s path ≡ unlink_found s1 dir nr
unfolding do_unlink
do_unlink-unlink_found s s1 path name dir nr short not_root e ne stripped =
    let below : ltb (length path) max_path ≡ true = ground arith in
    rw (below, ==_ne (strcmp path (slash ∷ [])) 0 not_root, e, ==_ne nr 0 ne, stripped)
      (ap (λ (w : ℕ × Fs). unlink_found w.1 dir w.0) e)

-- The path is short, not "/", and names a file that stands in a slot of the table: `do_unlink` returns
-- -1 and leaves the disk alone, and counts one more user of the inode that nothing takes back.
pub do_unlink-IsRefused :
    (s : Fs) (path name : List ℕ) (dir dev nr : ℕ) (sb : SuperBlock) (j : ℕ)
    → length path < max_path
    → strcmp path (slash ∷ []) ≢ 0
    → (search_file s path).0 ≡ nr
    → nr ≢ 0
    → strip_path s (some path) ≡ some (name, dir)
    → (s.inode_table dir).i_dev ≡ dev
    → get_super_block s dev ≡ ok sb
    → IsUnique s.inode_table
    → j < nr_inode
    → holds (s.inode_table j) dev nr ≡ true
    → (t : Fs) × (do_unlink s path ≡ ok (none, t)) × IsRefused s j t
unfolding strip_path
do_unlink-IsRefused s path name dir dev nr sb j short not_root found ne stripped on_dev has_sb u
      below held =
    let s1 = (search_file s path).1 in
    let same = search_file-SameButBuffer s path in
    let table : s1.inode_table ≡ s.inode_table = ap (λ x. x.inode_table) same in
    let stripped1 : strip_path s1 (some path) ≡ some (name, dir) =
      ap (λ x. strip_path x (some path)) same ∙ stripped in
    let dev1 : (s1.inode_table dir).i_dev ≡ dev = ap (λ f. (f dir).i_dev) table ∙ on_dev in
    let (t, e, r) =
      unlink_found-IsRefused s1 dir nr sb j (subst IsUnique (sym table) u) ne
        (ap (get_super_block s1) dev1
          ∙ get_super_block-cong s s1 dev (ap (λ x. x.super_block) same)
          ∙ has_sb)
        below
        (ap (λ d. holds (s1.inode_table j) d nr) dev1
          ∙ ap (λ f. holds (f j) dev nr) table
          ∙ held) in
    (
      t,
      do_unlink-unlink_found s s1 path name dir nr short not_root (ap (λ n. (n, s1)) found) ne
            stripped1
          ∙ e,
      record {
        disk = r.disk ∙ ap (λ x. x.disk) same;
        count = r.count ∙ ap (λ f. (f j).i_cnt + 1) table;
      },
    )
