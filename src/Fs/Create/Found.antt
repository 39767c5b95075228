-- ===== src/Fs/Create/Found.antt =====
-- fs/open.c `new_dir_entry` and fs/misc.c `search_file`: a file that is entered is found.
use osin32bits.Base.{
  ℕ, zero, suc, ◌+◌, ◌-◌, ◌*◌, ◌/◌, ◌^◌, ◌≤◌, ◌<◌, ◌≡◌, ◌≢◌, refl, ap, sym, subst, ◌∙◌, List,
  Option, none, some, ok, arith, length, true, ◌==◌,
}
use osin32bits.Text.{char_at, memcmp-same, memcmp-cong}
use osin32bits.Fs.Types.{sector_size, dir_entry_size, max_filename_len, Inode, SuperBlock, Fs}
use osin32bits.Fs.Inodes.{get_super_block, get_super_block-cong, inode_block}
use osin32bits.Fs.Inodes.Sync.{sync_inode-HasSynced}
use osin32bits.Fs.Path.{buffer_of, entry_name, strip_path, search_file}
use osin32bits.Fs.Path.Entries.{entry_place, is_named, first_entry, answer, first_entry-append}
use osin32bits.Fs.Path.Search.{entries_seen, search_file-first}
use osin32bits.Fs.Create.{dir_spot, new_dir_entry}
use osin32bits.Fs.Create.Free.{first_free, first_free-le, HasPlace, dir_spot-HasPlace}
use osin32bits.Fs.Create.Entry.{
  HasEntry, entered, entered-super_block, entered-inode_table, entered-HasEntry,
}

-- The first free entry of the directory in the slot `dir`, or the one behind its last.
abbrev pub free_place : Fs → (dir : ℕ) → ℕ
free_place s dir =
    let r = s.inode_table dir in
    first_free (s.disk r.i_dev) r.i_start_sect (r.i_size / dir_entry_size) 0

-- What `new_dir_entry` takes for granted of the directory: it may grow, the inodes lie in front of its
-- sectors, and behind the name its new entry is zero.
pub record HasRoom (s : Fs) (dir : ℕ) (filename : List ℕ) (sb : SuperBlock) : Type 0 where
  pub has_sb : get_super_block s (s.inode_table dir).i_dev ≡ ok sb
  pub size : (s.inode_table dir).i_size + dir_entry_size < 2 ^ 32
  pub front : inode_block sb (s.inode_table dir).i_num < (s.inode_table dir).i_start_sect
  pub clear :
      (i : ℕ)
      → length filename < i
      → i < max_filename_len
      → entry_name
          (s.disk (s.inode_table dir).i_dev)
          (entry_place (s.inode_table dir).i_start_sect (free_place s dir))
          i
        ≡ 0

-- For a directory with room `new_dir_entry` returns with the entry in the first free place.
pub new_dir_entry-HasEntry :
    (s : Fs) (dir inode_nr : ℕ) (filename : List ℕ) (sb : SuperBlock)
    → HasRoom s dir filename sb
    → inode_nr < 2 ^ 32
    → (t : Fs) × (new_dir_entry s dir inode_nr filename ≡ ok t)
      × HasEntry s dir inode_nr filename (free_place s dir) t
unfolding new_dir_entry
new_dir_entry-HasEntry s dir inode_nr filename sb h small =
    let r = s.inode_table dir in
    let nr = r.i_size / dir_entry_size in
    let x = free_place s dir in
    let start : r.i_start_sect + 0 ≡ r.i_start_sect = omega arith in
    let p = dir_spot s r.i_dev nr ((r.i_size + sector_size) / sector_size) r.i_start_sect 0 in
    let all : nr - 0 ≡ nr = omega arith in
    let at : HasPlace s r.i_dev r.i_start_sect nr x p =
      subst
        (λ k.
          HasPlace s r.i_dev r.i_start_sect nr (first_free (s.disk r.i_dev) r.i_start_sect k 0) p)
        all
        (subst
          (λ b.
            HasPlace s r.i_dev r.i_start_sect nr
              (first_free (s.disk r.i_dev) r.i_start_sect (nr - 0) 0)
              (dir_spot s r.i_dev nr ((r.i_size + sector_size) / sector_size) b 0))
          start
          (dir_spot-HasPlace s s r.i_dev nr r.i_start_sect ((r.i_size + sector_size) / sector_size)
            0 0 refl (omega arith) (omega arith) (omega arith))) in
    let (t, run, sync) =
      sync_inode-HasSynced (entered s dir inode_nr x filename p at) dir _ sb
        (entered-inode_table s dir inode_nr x filename p at)
        (get_super_block-cong s (entered s dir inode_nr x filename p at) r.i_dev
            (entered-super_block s dir inode_nr x filename p at)
          ∙ h.has_sb) in
    let (lo, hi) = first_free-le (s.disk r.i_dev) r.i_start_sect nr 0 in
    (
      t,
      run,
      entered-HasEntry s dir inode_nr x filename p at (inode_block sb r.i_num) t h.size small
          (omega (arith, hi)) h.front h.clear sync,
    )

strip_path-cong :
    (s t : Fs) (path : List ℕ)
    → t.root_inode ≡ s.root_inode
    → strip_path t (some path) ≡ strip_path s (some path)
unfolding strip_path
strip_path-cong s t path e = rw e refl

-- The first entry with the name is `x`, if no one before it has the name.
first_entry-at :
    (d d' name : ℕ → ℕ) (blk n x : ℕ)
    → x < n
    → ((p : ℕ) → blk * sector_size ≤ p → p < entry_place blk x → d' p ≡ d p)
    → first_entry d name blk x 0 ≡ none
    → is_named d' name (entry_place blk x) ≡ true
    → first_entry d' name blk n 0 ≡ some x
first_entry-at d d' name blk n x below same before here =
    let split : n ≡ x + suc (n - x - 1) = omega arith in
    let pre : first_entry d' name blk x 0 ≡ none = first_entry-cong x 0 (omega arith) ∙ before in
    let from : 0 + x ≡ x = omega arith in
    let found : first_entry d' name blk (suc (n - x - 1)) (0 + x) ≡ some x = rw (from, here) refl in
    ap (λ k. first_entry d' name blk k 0) split
    ∙ first_entry-append d' name blk x (suc (n - x - 1)) 0
    ∙ ap
        (λ (o : Option ℕ). elim o [
          | none ↦ first_entry d' name blk (suc (n - x - 1)) (0 + x)
          | some y ↦ some y
        ])
        pre
    ∙ found
  where
    first_entry-cong :
        (k e : ℕ) → e + k ≤ x → first_entry d' name blk k e ≡ first_entry d name blk k e
    first_entry-cong zero e l = refl
    first_entry-cong (suc k) e l =
        let named : is_named d' name (entry_place blk e) ≡ is_named d name (entry_place blk e) =
          ap (λ v. v == 0)
            (memcmp-cong name _ _ max_filename_len 0
              (λ i a b. same (entry_place blk e + 4 + i) (omega arith) (omega arith))) in
        rw (named, first_entry-cong k (e + 1) (omega arith))

-- A file with a number that fits into a u32 is entered into the root directory under the name of a
-- path, which none of the entries before the first free place has; the directory may grow, the inodes
-- lie in front of it, and behind the name its new entry is zero. Then `new_dir_entry` returns, and
-- `search_file` gives the number of the file for the path.
pub new_dir_entry-search_file :
    (s : Fs) (dir inode_nr : ℕ) (path filename : List ℕ) (sb : SuperBlock)
    → strip_path s (some path) ≡ some (filename, dir)
    → char_at filename ≢ 0
    → HasRoom s dir filename sb
    → inode_nr < 2 ^ 32
    → first_entry
        (s.disk (s.inode_table dir).i_dev)
        (buffer_of filename)
        (s.inode_table dir).i_start_sect
        (free_place s dir)
        0
      ≡ none
    → (t : Fs) × (new_dir_entry s dir inode_nr filename ≡ ok t)
      × ((search_file t path).0 ≡ inode_nr)
new_dir_entry-search_file s dir inode_nr path filename sb named ne room small before =
    let r = s.inode_table dir in
    let x = free_place s dir in
    let (t, run, at) = new_dir_entry-HasEntry s dir inode_nr filename sb room small in
    let d = t.disk r.i_dev in
    let here : is_named d (buffer_of filename) (entry_place r.i_start_sect x) ≡ true =
      rw
        (memcmp-same (buffer_of filename) (entry_name d (entry_place r.i_start_sect x))
          max_filename_len 0 (λ i l u. sym (at.name i u)))
        refl in
    let first =
      first_entry-at (s.disk r.i_dev) d (buffer_of filename) r.i_start_sect (entries_seen at.size) x
        (omega (arith, at.fits)) at.earlier before here in
    (
      t,
      run,
      search_file-first t path filename dir (strip_path-cong s t path at.root ∙ named) ne
          ∙ ap
              (λ (r' : Inode). answer (t.disk r'.i_dev) r'.i_start_sect (
                first_entry (t.disk r'.i_dev) (buffer_of filename) r'.i_start_sect
                  (entries_seen r'.i_size) 0))
              at.grown
          ∙ ap (answer d r.i_start_sect) first
          ∙ at.number,
    )
