-- ===== src/Fs/Path/Names.antt =====
-- fs/misc.c `strip_path`.
use osin32bits.Base.{
  ℕ, zero, suc, ◌≡◌, refl, sym, ap, true, Option, none, some, List, [], ◌∷◌, has, take, arith, ◌==◌,
  inl, inr, if◌then◌else◌, Bool-cases, false,
}
use osin32bits.Text.{characters}
use osin32bits.Fs.Types.{max_filename_len, Fs}
use osin32bits.Fs.Path.{slash, after_slash, copy_name, strip_path}

-- A name with a slash is refused.
abbrev pub without_slash : List ℕ → Option (List ℕ)
without_slash t = if has slash t then none else some t

without_slash-cons :
    (c : ℕ) (t : List ℕ)
    → (c == slash) ≡ false
    → without_slash (c ∷ t) ≡ (elim (without_slash t) [ none ↦ none | some t ↦ some (c ∷ t) ])
without_slash-cons c t h = elim (Bool-cases (has slash t)) [
  | inl e ↦ ground (arith, e)
  | inr e ↦ ground (arith, e)
]

copy_name-take :
    (s : List ℕ) (room : ℕ) → copy_name s room ≡ without_slash (take room (characters s))
unfolding copy_name
copy_name-take [] zero = refl
copy_name-take [] (suc room) = refl
copy_name-take (c ∷ s) zero = refl
copy_name-take (c ∷ s) (suc room) = elim (Bool-cases (c == 0)) [
  | inl end ↦ rw end refl
  | inr more ↦ elim (Bool-cases (c == slash)) [
    | inl e ↦
        let found : has slash (c ∷ take room (characters s)) ≡ true = ground arith in
        rw (more, e, found) refl
    | inr e ↦
        rw (more, e, copy_name-take s room)
          (sym (without_slash-cons c (take room (characters s)) e))
  ]
]

-- For a path that is not a null pointer, `strip_path` gives the characters after one leading slash,
-- cut to 12, with the root directory; if a slash is among them, it gives -1.
pub strip_path-take :
    (s : Fs) (path : List ℕ)
    → strip_path s (some path)
      ≡ (elim (without_slash (take max_filename_len (characters (after_slash path)))) [
        | none ↦ none
        | some t ↦ some (t, s.root_inode)
      ])
unfolding strip_path
strip_path-take s path =
    ap (λ x. elim x [ none ↦ none | some t ↦ some (t, s.root_inode) ])
      (copy_name-take (after_slash path) max_filename_len)
