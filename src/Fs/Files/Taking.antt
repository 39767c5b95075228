-- ===== src/Fs/Files/Taking.antt =====
-- fs/open.c `do_open` of an existing file: the inode and the descriptor that it takes.
use osin32bits.Base.{
  ℕ, zero, suc, ◌+◌, ◌<◌, ◌≡◌, refl, sym, ap, subst, ◌∙◌, ◌≢◌, ◌⊎◌, inl, inr, Option, none, some,
  List, length, true, false, ◌||◌, Run, ok, fault, assertion, panic, ◌>>=◌, arith, ◌==◌, ltb,
  update, if◌then◌else◌, has_flag, Bool-cases, Option-cases, ==_ne,
}
use osin32bits.Fs.Types.{
  nr_files, nr_file_desc, nr_inode, i_regular, i_directory, root_dev, max_path, o_creat, o_rdwr,
  Inode, SuperBlock, Fs,
}
use osin32bits.Fs.Sectors.{rd_sect}
use osin32bits.Fs.Inodes.{get_super_block, get_super_block-cong, get_inode}
use osin32bits.Fs.Inodes.Table.{IsUnique, Got, shared, loaded, no_slot, get_inode-Got}
use osin32bits.Fs.Path.{strip_path, search_file}
use osin32bits.Fs.Path.Search.{search_file-SameButBuffer}
use osin32bits.Fs.Files.{
  is_null_at, first_null, set_filp, set_desc, type_of_mode, open_type, open_inode, open_desc,
  do_open,
}
use osin32bits.Fs.Files.Share.{inode_of}

pub first_null-null :
    (f : ℕ → Option ℕ) (n i : ℕ) → first_null f n i ≢ i + n → f (first_null f n i) ≡ none
unfolding first_null
first_null-null f zero i ne = absurd (ne (omega arith))
first_null-null f (suc n) i ne = elim (Option-cases (f i)) [
  | inl e ↦ rw (first_null, e) e
  | inr (x, e) ↦
      rw (first_null, e)
        (first_null-null f n (i + 1) (λ h.
          ne (ap (λ o. if is_null_at o then i else first_null f n (i + 1)) e ∙ h ∙ omega arith)))
]

-- One more user of the inode `q`.
pub record Taken (s : Fs) (q : ℕ) (t : Fs) : Type 0 where
  pub filp : t.filp ≡ s.filp
  pub descs : t.f_desc_table ≡ s.f_desc_table
  pub count :
      (k : ℕ) → (t.inode_table k).i_cnt ≡ (s.inode_table k).i_cnt + (if k == q then 1 else 0)

i_cnt-update :
    (f : ℕ → Inode) (q : ℕ) (r : Inode)
    → r.i_cnt ≡ (f q).i_cnt + 1
    → (k : ℕ) → (update f q r k).i_cnt ≡ (f k).i_cnt + (if k == q then 1 else 0)
i_cnt-update f q r h k = elim (Bool-cases (k == q)) [
  | inl e ↦ let same : k ≡ q = ground arith in rw (e, same) h
  | inr e ↦ rw e (omega arith)
]

Got-Taken :
    (s : Fs) (dev num : ℕ) (r : Run (Option ℕ × Fs))
    → Got s dev num r
    → ((r ≡ fault panic) × ((j : ℕ) → j < nr_inode → (s.inode_table j).i_cnt ≢ 0))
      ⊎ ((q : ℕ) × (t : Fs) × (r ≡ ok (some q, t)) × Taken s q t)
unfolding rd_sect
Got-Taken s dev num _ (shared q l h t e u) = inr (
  q,
  t,
  refl,
  rw e (record { filp = refl; descs = refl; count = i_cnt-update s.inode_table q _ refl }),
)
Got-Taken s dev num _ (loaded q l h others sb has_sb t e u) = inr (
  q,
  t,
  refl,
  rw e (record {
    filp = refl;
    descs = refl;
    count = i_cnt-update s.inode_table q _ (omega (arith, h));
  }),
)
Got-Taken s dev num _ (no_slot h others) = inl (refl, h)

-- An existing file that `do_open` finds: no O_CREAT, a number and a directory, and the free places
-- that it takes.
pub record IsOpenable (s : Fs) (p flags : ℕ) (path : List ℕ) (dev nr : ℕ) (sb : SuperBlock)
    : Type 0 where
  pub short : length path < max_path
  pub has_filp : first_null (s.filp p) nr_files 0 ≢ nr_files
  pub has_desc : first_null (inode_of s) nr_file_desc 0 ≢ nr_file_desc
  pub rdwr : has_flag flags o_rdwr ≡ true
  pub no_creat : has_flag flags o_creat ≡ false
  pub found : (search_file s path).0 ≡ nr
  pub named :
      (name : List ℕ) × (dir : ℕ) × (strip_path s (some path) ≡ some (name, dir))
      × ((s.inode_table dir).i_dev ≡ dev)
  pub is_number : nr ≢ 0
  pub has_sb : get_super_block s dev ≡ ok sb
  pub is_unique : IsUnique s.inode_table
  pub has_slot : (j : ℕ) × (j < nr_inode) × ((s.inode_table j).i_cnt ≡ 0)

-- Without O_CREAT, `open_inode` gets the inode that the search finds.
open_inode-existing :
    (s s1 : Fs) (flags : ℕ) (path name : List ℕ) (dir dev nr : ℕ)
    → search_file s path ≡ (nr, s1)
    → strip_path s1 (some path) ≡ some (name, dir)
    → (s1.inode_table dir).i_dev ≡ dev
    → has_flag flags o_rdwr ≡ true
    → has_flag flags o_creat ≡ false
    → open_inode s flags path ≡ get_inode s1 dev nr
unfolding open_inode
open_inode-existing s s1 flags path name dir dev nr e stripped on_dev rdwr no_creat =
    rw (e, no_creat, rdwr, stripped)
      (ap (λ (w : ℕ × Fs). get_inode w.1 (w.1.inode_table dir).i_dev w.0) e
        ∙ ap (λ x. get_inode s1 x nr) on_dev)

-- The state after the search, and the inode that is taken in it.
pub open_inode-Taken :
    (s : Fs) (p flags : ℕ) (path : List ℕ) (dev nr : ℕ) (sb : SuperBlock)
    → IsOpenable s p flags path dev nr sb
    → (q : ℕ) × (t : Fs) × (open_inode s flags path ≡ ok (some q, t))
      × (get_inode (search_file s path).1 dev nr ≡ ok (some q, t))
      × Taken s q t
unfolding strip_path
open_inode-Taken s p flags path dev nr sb o =
    let (name, dir, stripped, on_dev) = o.named in
    let s1 = (search_file s path).1 in
    let same = search_file-SameButBuffer s path in
    let stripped1 : strip_path s1 (some path) ≡ some (name, dir) =
      ap (λ x. strip_path x (some path)) same ∙ stripped in
    let dev1 : (s1.inode_table dir).i_dev ≡ dev =
      ap (λ x. (x.inode_table dir).i_dev) same ∙ on_dev in
    let searched : search_file s path ≡ (nr, s1) = ap (λ n. (n, s1)) o.found in
    let existing =
      open_inode-existing s s1 flags path name dir dev nr searched stripped1 dev1 o.rdwr
        o.no_creat in
    let table : s1.inode_table ≡ s.inode_table = ap (λ x. x.inode_table) same in
    let s1_sb = get_super_block-cong s s1 dev (ap (λ x. x.super_block) same) ∙ o.has_sb in
    let (j, below, unused) = o.has_slot in
    elim (Got-Taken s1 dev nr _
      (get_inode-Got s1 dev nr sb (subst IsUnique (sym table) o.is_unique) o.is_number s1_sb)) [
        | inl (stuck, live) ↦ absurd (live j below (ap (λ f. (f j).i_cnt) table ∙ unused))
        | inr (q, t, got, h) ↦ (
          q,
          t,
          existing ∙ got,
          got,
          record {
            filp = h.filp ∙ ap (λ x. x.filp) same;
            descs = h.descs ∙ ap (λ x. x.f_desc_table) same;
            count = λ k. h.count k ∙ ap (λ f. (f k).i_cnt + (if k == q then 1 else 0)) table;
          },
        )
      ]

pub open_type-regular : (s : Fs) (r : Inode) → r.i_mode ≡ i_regular → open_type s r ≡ ok s
unfolding open_type
open_type-regular s r e = rw e refl

pub open_type-directory :
    (s : Fs) (r : Inode)
    → type_of_mode r.i_mode ≡ i_directory
    → r.i_num ≢ root_dev
    → open_type s r ≡ fault assertion
unfolding open_type
open_type-directory s r e ne = rw (e, ==_ne r.i_num root_dev ne) refl

-- The free places of `do_open`.
abbrev pub free_fd : Fs → (p : ℕ) → ℕ
free_fd s p = first_null (s.filp p) nr_files 0

abbrev pub free_desc : Fs → ℕ
free_desc s = first_null (inode_of s) nr_file_desc 0

-- The state with the descriptor for the inode `q`.
abbrev pub opened_state : Fs → (p flags fd i q : ℕ) → Fs
opened_state t p flags fd i q =
    set_filp
      (set_desc t i (record (t.f_desc_table i) {
        fd_inode = some q;
        fd_mode = flags;
        fd_pos = (t.inode_table q).i_size;
      }))
      p fd (some i)

pub do_open-open_type :
    (s : Fs) (p flags : ℕ) (path : List ℕ) (dev nr : ℕ) (sb : SuperBlock) (q : ℕ) (t : Fs)
    → IsOpenable s p flags path dev nr sb
    → open_inode s flags path ≡ ok (some q, t)
    → do_open s p flags path ≡ (
        open_type (opened_state t p flags (free_fd s p) (free_desc s) q) (t.inode_table q) >>= λ u.
        ok (some (free_fd s p), u))
unfolding do_open open_desc
do_open-open_type s p flags path dev nr sb q t o e =
    let short : ltb (length path) max_path ≡ true = ground (arith, o.short) in
    let room : ((free_fd s p == nr_files) || (free_desc s == nr_file_desc)) ≡ false =
      rw (==_ne (free_fd s p) nr_files o.has_filp, ==_ne (free_desc s) nr_file_desc o.has_desc)
        refl in
    rw (short, room, e) refl
