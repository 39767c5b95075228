-- ===== src/Fs/Files/Share.antt =====
-- fs/open.c `do_close` and fs/main.c `fs_fork`: descriptors that two processes share.
use osin32bits.Base.{
  ℕ, zero, suc, ◌+◌, ◌<◌, ◌≡◌, refl, sym, ap, subst, fun_ext, ◌∙◌, ◌≢◌, inl, inr, Option, none,
  some, true, false, ok, fault, null_pointer, arith, ◌==◌, ltb, update, if◌then◌else◌, Bool-cases,
  Option-cases, ==_refl, ==_ne,
}
use osin32bits.Fs.Types.{nr_files, FileDesc, Fs}
use osin32bits.Fs.Inodes.{put_inode}
use osin32bits.Fs.Files.{do_close, fork_file, fork_files, fs_fork}

-- `do_close` of a descriptor that another process holds too takes the inode from it.
pub do_close-shared :
    (s : Fs) (p q fd fd' i n : ℕ)
    → p ≢ q
    → s.filp p fd ≡ some i
    → s.filp q fd' ≡ some i
    → (s.f_desc_table i).fd_inode ≡ some n
    → 0 < (s.inode_table n).i_cnt
    → (t : Fs) × (do_close s p fd ≡ ok t) × (do_close t q fd' ≡ fault null_pointer)
unfolding do_close put_inode
do_close-shared s p q fd fd' i n ne has_p has_q has_inode used =
    let in_use : ltb 0 (s.inode_table n).i_cnt ≡ true = ground arith in
    let other : (q == p) ≡ false = ==_ne q p (λ e. ne (sym e)) in
    rw (has_p, has_inode, in_use) (_, refl, rw (other, has_q, ==_refl i) refl)

-- The inodes of the descriptors.
abbrev pub inode_of : Fs → ℕ → Option ℕ
inode_of s i = (s.f_desc_table i).fd_inode

-- Whether a descriptor is of the inode `k`.
abbrev pub is_inode : ℕ → Option ℕ → ℕ
is_inode k none = 0
is_inode k (some p) = if k == p then 1 else 0

abbrev pub use_in : (ℕ → Option ℕ) → ℕ → Option ℕ → ℕ
use_in inodes k none = 0
use_in inodes k (some i) = is_inode k (inodes i)

abbrev pub use_of : (files inodes : ℕ → Option ℕ) → (k fd : ℕ) → ℕ
use_of files inodes k fd = use_in inodes k (files fd)

-- How many of the `n` descriptors from `fd` on are of the inode `k`.
abbrev pub users : (files inodes : ℕ → Option ℕ) → (k n fd : ℕ) → ℕ
users files inodes k zero fd = 0
users files inodes k (suc n) fd = use_of files inodes k fd + users files inodes k n (fd + 1)

-- Every open descriptor, from `fd` on, has an inode.
abbrev pub AllOpen : (files inodes : ℕ → Option ℕ) → (n fd : ℕ) → Type 0
AllOpen files inodes zero fd = Unit {0}
AllOpen files inodes (suc n) fd =
    ((i : ℕ) → files fd ≡ some i → (k : ℕ) × (inodes i ≡ some k)) × AllOpen files inodes n (fd + 1)

-- The child has the files of before, and the inodes have more users.
pub record HasForked (s : Fs) (more : ℕ → ℕ) (t : Fs) : Type 0 where
  pub filp : t.filp ≡ s.filp
  pub inodes : inode_of t ≡ inode_of s
  pub count : (k : ℕ) → (t.inode_table k).i_cnt ≡ (s.inode_table k).i_cnt + more k

fd_inode-update :
    (f : ℕ → FileDesc) (i j : ℕ) (d : FileDesc)
    → d.fd_inode ≡ (f i).fd_inode
    → (update f i d j).fd_inode ≡ (f j).fd_inode
fd_inode-update f i j d h = elim (Bool-cases (j == i)) [
  | inl e ↦
      let same : i ≡ j = ground arith in
      ap (λ b. (if b then d else f j).fd_inode) e ∙ h ∙ ap (λ k. (f k).fd_inode) same
  | inr e ↦ ap (λ b. (if b then d else f j).fd_inode) e
]

use_of-none :
    (files inodes : ℕ → Option ℕ) (k fd : ℕ) → files fd ≡ none → use_of files inodes k fd ≡ 0
use_of-none files inodes k fd e = ap (use_in inodes k) e

use_of-some :
    (files inodes : ℕ → Option ℕ) (k fd i p : ℕ)
    → files fd ≡ some i
    → inodes i ≡ some p
    → use_of files inodes k fd ≡ (if k == p then 1 else 0)
use_of-some files inodes k fd i p e h = ap (use_in inodes k) e ∙ ap (is_inode k) h

fork_file-HasForked :
    (s : Fs) (pid fd : ℕ)
    → ((i : ℕ) → s.filp pid fd ≡ some i → (k : ℕ) × (inode_of s i ≡ some k))
    → (t : Fs) × (fork_file s pid fd ≡ ok t)
      × HasForked s (λ k. use_of (s.filp pid) (inode_of s) k fd) t
unfolding fork_file
fork_file-HasForked s pid fd all = elim (Option-cases (s.filp pid fd)) [
  | inl e ↦
      rw (fork_file, e)
        (
          s,
          refl,
          record {
            filp = refl;
            inodes = refl;
            count = λ k. omega (arith, use_of-none (s.filp pid) (inode_of s) k fd e);
          },
        )
  | inr (i, e) ↦
      let (p, found) = all i e in
      let has_inode : (s.f_desc_table i).fd_inode ≡ some p = found in
      rw (fork_file, e, has_inode)
        (
          _,
          refl,
          record {
            filp = refl;
            inodes = fun_ext (λ j. fd_inode-update s.f_desc_table i j _ (sym has_inode));
            count = λ k. ground (arith, use_of-some (s.filp pid) (inode_of s) k fd i p e has_inode);
          },
        )
]

fork_files-HasForked :
    (s : Fs) (pid n fd : ℕ)
    → AllOpen (s.filp pid) (inode_of s) n fd
    → (t : Fs) × (fork_files s pid n fd ≡ ok t)
      × HasForked s (λ k. users (s.filp pid) (inode_of s) k n fd) t
unfolding fork_files
fork_files-HasForked s pid zero fd all =
    (s, refl, record { filp = refl; inodes = refl; count = λ k. omega arith })
fork_files-HasForked s pid (suc n) fd (here, rest) =
    let (t, e, h) = fork_file-HasForked s pid fd here in
    let files : t.filp pid ≡ s.filp pid = ap (λ f. f pid) h.filp in
    let rest' =
      subst (λ g. AllOpen (t.filp pid) g n (fd + 1)) (sym h.inodes)
        (subst (λ f. AllOpen f (inode_of s) n (fd + 1)) (sym files) rest) in
    let (u, e', h') = fork_files-HasForked t pid n (fd + 1) rest' in
    rw (e, e')
      (
        u,
        refl,
        record {
          filp = h'.filp ∙ h.filp;
          inodes = h'.inodes ∙ h.inodes;
          count = λ k.
              h'.count k
              ∙ ap (λ f. (t.inode_table k).i_cnt + users f (inode_of t) k n (fd + 1)) files
              ∙ ap (λ g. (t.inode_table k).i_cnt + users (s.filp pid) g k n (fd + 1)) h.inodes
              ∙ ap (λ c. c + users (s.filp pid) (inode_of s) k n (fd + 1)) (h.count k)
              ∙ omega arith;
        },
      )

-- When every open descriptor of the child has an inode, `fs_fork` returns; the child keeps its files,
-- and every inode gets one more user for each descriptor of the child.
pub fs_fork-HasForked :
    (s : Fs) (pid : ℕ)
    → AllOpen (s.filp pid) (inode_of s) nr_files 0
    → (t : Fs) × (fs_fork s pid ≡ ok t)
      × HasForked s (λ k. users (s.filp pid) (inode_of s) k nr_files 0) t
unfolding fs_fork
fs_fork-HasForked s pid all = fork_files-HasForked s pid nr_files 0 all

-- Every open descriptor of the child has an inode, and parent and child hold the same descriptor of an
-- inode in use: after `fs_fork`, a close by the parent succeeds, and the close by the child then
-- follows a null pointer.
pub fs_fork-do_close :
    (s : Fs) (parent child fd i n : ℕ)
    → parent ≢ child
    → AllOpen (s.filp child) (inode_of s) nr_files 0
    → s.filp parent fd ≡ some i
    → s.filp child fd ≡ some i
    → inode_of s i ≡ some n
    → 0 < (s.inode_table n).i_cnt
    → (t : Fs) × (u : Fs) × (fs_fork s child ≡ ok t)
      × (do_close t parent fd ≡ ok u)
      × (do_close u child fd ≡ fault null_pointer)
fs_fork-do_close s parent child fd i n ne all has_parent has_child has_inode used =
    let (t, e, h) = fs_fork-HasForked s child all in
    let (u, e', e'') =
      do_close-shared t parent child fd fd i n ne (ap (λ f. f parent fd) h.filp ∙ has_parent)
        (ap (λ f. f child fd) h.filp ∙ has_child) (ap (λ f. f i) h.inodes ∙ has_inode)
        (omega (arith, h.count n)) in
    (t, u, e, e', e'')
