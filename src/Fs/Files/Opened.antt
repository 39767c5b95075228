-- ===== src/Fs/Files/Opened.antt =====
-- fs/open.c `do_open` and `do_close`: opening a file, and closing it again.
use osin32bits.Base.{
  ℕ, ◌-◌, ◌<◌, ◌≡◌, refl, sym, ap, ◌∙◌, ◌≢◌, inl, inr, Option, none, some, List, true, ok, fault,
  assertion, ◌>>=◌, arith, ◌==◌, ltb, update, if◌then◌else◌, Bool-cases, ==_refl,
}
use osin32bits.Fs.Types.{
  nr_files, nr_file_desc, i_regular, i_directory, root_dev, FileDesc, SuperBlock, Fs,
}
use osin32bits.Fs.Inodes.{set_inode, get_inode, put_inode}
use osin32bits.Fs.Path.{search_file}
use osin32bits.Fs.Files.{set_filp, set_desc, type_of_mode, do_open, do_close}
use osin32bits.Fs.Files.Share.{inode_of}
use osin32bits.Fs.Files.Taking.{
  first_null-null, Taken, IsOpenable, open_inode-Taken, open_type-regular, open_type-directory,
  free_fd, free_desc, opened_state, do_open-open_type,
}

-- `do_open` of an existing file that is a directory whose number is not ROOT_DEV, with free places in
-- the tables, fails an assertion.
pub do_open-directory :
    (s : Fs) (p flags : ℕ) (path : List ℕ) (dev nr : ℕ) (sb : SuperBlock)
    → IsOpenable s p flags path dev nr sb
    → ((q : ℕ) (t : Fs)
        → get_inode (search_file s path).1 dev nr ≡ ok (some q, t)
        → (type_of_mode (t.inode_table q).i_mode ≡ i_directory)
          × ((t.inode_table q).i_num ≢ root_dev))
    → do_open s p flags path ≡ fault assertion
do_open-directory s p flags path dev nr sb o is_dir =
    let (q, t, opens, got, h) = open_inode-Taken s p flags path dev nr sb o in
    let (mode, number) = is_dir q t got in
    let refused =
      open_type-directory (opened_state t p flags (free_fd s p) (free_desc s) q) (t.inode_table q)
        mode number in
    do_open-open_type s p flags path dev nr sb q t o opens
    ∙ ap (λ x. x >>= λ u. ok (some (free_fd s p), u)) refused

-- What is left of an open and a close: nothing in the descriptors, and the same users.
pub record IsRestored (s u : Fs) : Type 0 where
  pub filp : (p fd : ℕ) → u.filp p fd ≡ s.filp p fd
  pub inodes : (i : ℕ) → inode_of u i ≡ inode_of s i
  pub count : (k : ℕ) → (u.inode_table k).i_cnt ≡ (s.inode_table k).i_cnt

-- The state after a close of the descriptor `i` for the inode `n`.
abbrev pub closed_state : Fs → (p fd i n : ℕ) → Fs
closed_state s p fd i n =
    let r = s.inode_table n in
    set_filp
      (set_desc (set_inode s n (record r { i_cnt = r.i_cnt - 1 })) i
        (record (s.f_desc_table i) { fd_inode = none }))
      p fd none

do_close-closed_state :
    (s : Fs) (p fd i n : ℕ)
    → s.filp p fd ≡ some i
    → inode_of s i ≡ some n
    → 0 < (s.inode_table n).i_cnt
    → do_close s p fd ≡ ok (closed_state s p fd i n)
unfolding do_close put_inode
do_close-closed_state s p fd i n has_desc found used =
    let has_inode : (s.f_desc_table i).fd_inode ≡ some n = found in
    let in_use : ltb 0 (s.inode_table n).i_cnt ≡ true = ground arith in
    rw (has_desc, has_inode, in_use) refl

update-twice :
    (f : ℕ → ℕ → Option ℕ) (p fd : ℕ) (x y : Option ℕ) (p' fd' : ℕ)
    → f p fd ≡ y
    → update
        (update f p (update (f p) fd x))
        p
        (update (update f p (update (f p) fd x) p) fd y)
        p'
        fd'
      ≡ f p' fd'
update-twice f p fd x y p' fd' h = elim (Bool-cases (p' == p)) [
  | inr e ↦ rw e refl
  | inl e ↦ elim (Bool-cases (fd' == fd)) [
    | inl e' ↦
        let same : p ≡ p' = ground arith in
        let same' : fd ≡ fd' = ground arith in
        rw (e, e') (sym h ∙ ap (λ a. f a fd) same ∙ ap (f p') same')
    | inr e' ↦
        let same : p ≡ p' = ground arith in rw (e, e', ==_refl p, e') (ap (λ a. f a fd') same)
  ]
]

fd_inode-set : (s : Fs) (i : ℕ) (d : FileDesc) → inode_of (set_desc s i d) i ≡ d.fd_inode
fd_inode-set s i d = ap (λ b. (if b then d else s.f_desc_table i).fd_inode) (==_refl i)

fd_pos-set : (s : Fs) (i : ℕ) (d : FileDesc) → ((set_desc s i d).f_desc_table i).fd_pos ≡ d.fd_pos
fd_pos-set s i d = ap (λ b. (if b then d else s.f_desc_table i).fd_pos) (==_refl i)

inodes-twice :
    (f : ℕ → FileDesc) (i j : ℕ) (d d' : FileDesc)
    → d'.fd_inode ≡ (f i).fd_inode
    → (update (update f i d) i d' j).fd_inode ≡ (f j).fd_inode
inodes-twice f i j d d' h = elim (Bool-cases (j == i)) [
  | inl e ↦
      let same : i ≡ j = ground arith in
      ap (λ b. (if b then d' else update f i d j).fd_inode) e ∙ h ∙ ap (λ k. (f k).fd_inode) same
  | inr e ↦
      ap (λ b. (if b then d' else update f i d j).fd_inode) e
      ∙ ap (λ b. (if b then d else f j).fd_inode) e
]

do_close-restores :
    (s t : Fs) (p flags fd i q : ℕ)
    → s.filp p fd ≡ none
    → inode_of s i ≡ none
    → Taken s q t
    → (u : Fs) × (do_close (opened_state t p flags fd i q) p fd ≡ ok u) × IsRestored s u
do_close-restores s t p flags fd i q null_fd null_desc h =
    let o = opened_state t p flags fd i q in
    let has_desc : o.filp p fd ≡ some i = rw (==_refl p, ==_refl fd) refl in
    let has_inode : inode_of o i ≡ some q = fd_inode-set t i _ in
    let used : 0 < (o.inode_table q).i_cnt = ground (arith, h.count q) in
    (
      closed_state o p fd i q,
      do_close-closed_state o p fd i q has_desc has_inode used,
      record {
        filp = λ p' fd'.
            update-twice t.filp p fd (some i) none p' fd' (ap (λ f. f p fd) h.filp ∙ null_fd)
            ∙ ap (λ f. f p' fd') h.filp;
        inodes = λ j.
            inodes-twice t.f_desc_table i j _ _ (sym (ap (λ f. (f i).fd_inode) h.descs ∙ null_desc))
            ∙ ap (λ f. (f j).fd_inode) h.descs;
        count = λ k. ground (arith, h.count k);
      },
    )

-- Opening an existing regular file, with free places in the tables, gives the first free descriptor of
-- the process, with the position at the end of the file; closing it then succeeds, and leaves the
-- descriptors and the users of the inodes as before the open.
pub do_open-do_close :
    (s : Fs) (p flags : ℕ) (path : List ℕ) (dev nr : ℕ) (sb : SuperBlock)
    → IsOpenable s p flags path dev nr sb
    → ((q : ℕ) (t : Fs)
        → get_inode (search_file s path).1 dev nr ≡ ok (some q, t)
        → (t.inode_table q).i_mode ≡ i_regular)
    → (q : ℕ) × (t : Fs) × (u : Fs) × (do_open s p flags path ≡ ok (some (free_fd s p), t))
      × (t.filp p (free_fd s p) ≡ some (free_desc s))
      × (inode_of t (free_desc s) ≡ some q)
      × ((t.f_desc_table (free_desc s)).fd_pos ≡ (t.inode_table q).i_size)
      × (do_close t p (free_fd s p) ≡ ok u)
      × IsRestored s u
do_open-do_close s p flags path dev nr sb o regular =
    let (q, t, opens, got, h) = open_inode-Taken s p flags path dev nr sb o in
    let fd = free_fd s p in
    let i = free_desc s in
    let v = opened_state t p flags fd i q in
    let returns = open_type-regular v (t.inode_table q) (regular q t got) in
    let (u, closes, restored) =
      do_close-restores s t p flags fd i q (first_null-null (s.filp p) nr_files 0 o.has_filp)
        (first_null-null (inode_of s) nr_file_desc 0 o.has_desc) h in
    (
      q,
      v,
      u,
      do_open-open_type s p flags path dev nr sb q t o opens
          ∙ ap (λ x. x >>= λ w. ok (some fd, w)) returns,
      rw (==_refl p, ==_refl fd) refl,
      fd_inode-set t i _,
      fd_pos-set t i _,
      closes,
      restored,
    )
