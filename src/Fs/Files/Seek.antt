-- ===== src/Fs/Files/Seek.antt =====
-- fs/open.c `do_lseek`.
use osin32bits.Base.{
  ℕ, ◌^◌, ◌≤◌, ◌<◌, ◌≡◌, inl, inr, Option, none, some, ◌||◌, Run, ok, arith, ◌==◌, if◌then◌else◌,
  Bool-cases,
}
use osin32bits.Mm.{slt}
use osin32bits.Fs.Types.{Fs}
use osin32bits.Fs.Files.{set_desc, seek_target, do_lseek}

-- The outcomes of `do_lseek`, for the descriptor `i`.
pub data Sought (s : Fs) (i size : ℕ) : Option ℕ → Run (Option ℕ × Fs) → Type 0 where
  no_target : Sought s i size none (ok (none, s))
  -- The target lies outside of the file, or is negative.
  outside : (pos : ℕ) → size < pos → Sought s i size (some pos) (ok (none, s))
  -- It lies within the file, its end included.
  moved :
      (pos : ℕ)
      → pos ≤ size
      → Sought s i size
          (some pos)
          (ok (some pos, set_desc s i (record (s.f_desc_table i) { fd_pos = pos })))

abbrev IsWord : Option ℕ → Type 0
IsWord none = Unit {0}
IsWord (some x) = x < 2 ^ 32

seek_target-IsWord :
    (pos size off whence : ℕ) → off < 2 ^ 32 → IsWord (seek_target pos size off whence)
unfolding seek_target
seek_target-IsWord pos size off whence h = elim (Bool-cases (whence == 1)) [
  | inl a ↦ rw a h
  | inr a ↦ elim (Bool-cases (whence == 2)) [
    | inl b ↦ rw (a, b) (omega arith)
    | inr b ↦ elim (Bool-cases (whence == 3)) [
      | inl c ↦ rw (a, b, c) (omega arith)
      | inr c ↦ rw (a, b, c) tt
    ]
  ]
]

-- For an open descriptor of a file whose size is an int that is not negative, `do_lseek` with an
-- offset of 32 bits returns: the position moves to the target if it is in the file, and otherwise the
-- answer is -1 and nothing changes.
pub do_lseek-Sought :
    (s : Fs) (pcaller fd off whence i p : ℕ)
    → s.filp pcaller fd ≡ some i
    → (s.f_desc_table i).fd_inode ≡ some p
    → (s.inode_table p).i_size < 2 ^ 31
    → off < 2 ^ 32
    → Sought s i
        (s.inode_table p).i_size
        (seek_target (s.f_desc_table i).fd_pos (s.inode_table p).i_size off whence)
        (do_lseek s pcaller fd off whence)
unfolding do_lseek
do_lseek-Sought s pcaller fd off whence i p has_desc has_inode small off32 =
    let size = (s.inode_table p).i_size in
    rw (has_desc, has_inode)
      (by_target (seek_target (s.f_desc_table i).fd_pos size off whence)
        (seek_target-IsWord (s.f_desc_table i).fd_pos size off whence off32))
  where
    by_target :
        (o : Option ℕ)
        → IsWord o
        → Sought s i (s.inode_table p).i_size o (elim o [
          | none ↦ ok (none, s)
          | some pos ↦
              if slt (s.inode_table p).i_size pos || slt pos 0
              then ok (none, s)
              else ok (some pos, set_desc s i (record (s.f_desc_table i) { fd_pos = pos }))
        ])
    by_target none h = no_target
    by_target (some pos) h = elim (Bool-cases (slt (s.inode_table p).i_size pos || slt pos 0)) [
      | inl e ↦ rw e (outside pos (ground (arith, h)))
      | inr e ↦ rw e (moved pos (ground (arith, h)))
    ]
