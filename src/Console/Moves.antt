-- ===== src/Console/Moves.antt =====
-- kernel/console.c: `scroll_screen` in both directions, and the consoles at the start.
use osin32bits.Base.{
  ℕ, ◌+◌, ◌-◌, ◌*◌, ◌/◌, ◌%◌, ◌≤◌, ◌<◌, ◌≡◌, refl, ◌⊎◌, inl, inr, true, not, ◌&&◌, arith, ◌==◌, ltb,
  leb, Bool-cases, if◌then◌else◌,
}
use osin32bits.Console.{
  scr_width, scr_size, Console, usub, Dir, scr_up, scr_dn, scroll_screen, init_console, nr_consoles,
}
use osin32bits.Console.Scroll.{IsConsole, start_off, newest, at_top}

-- A console after its screen has moved to another row.
pub record Scrolled (c : Console) (rows top y x : ℕ) (c' : Console) : Type 0 where
  pub top' : ℕ
  pub keeps : c'.is_full ≡ c.is_full
  pub cursor : c'.cursor ≡ c.cursor
  pub valid : IsConsole c' rows top' y x
  pub follows : ((c.is_full ≡ true) ⊎ (top ≤ y)) → (c.is_full ≡ true) ⊎ (top' ≤ y)

module _ (c : Console) (rows top y x : ℕ) (v : IsConsole c rows top y x) where
  to_top :
      (top' : ℕ)
      → top' + 25 ≤ rows
      → ((c.is_full ≡ true) ⊎ (top' ≤ y) ⊎ (top' ≤ top))
      → Scrolled c rows top y x (record c { crtc_start = c.orig + top' * scr_width })
  to_top top' h near = record {
    top' = top';
    keeps = refl;
    cursor = refl;
    valid = at_top c rows top y x v top' h;
    follows = after near;
  }
    where
      after :
          ((c.is_full ≡ true) ⊎ (top' ≤ y) ⊎ (top' ≤ top))
          → ((c.is_full ≡ true) ⊎ (top ≤ y))
          → (c.is_full ≡ true) ⊎ (top' ≤ y)
      after (inl full) o = inl full
      after (inr (inl l)) o = inr l
      after (inr (inr l)) (inl full) = inl full
      after (inr (inr l)) (inr m) = inr (omega arith)

  unmoved : Scrolled c rows top y x c
  unmoved = record { top' = top; keeps = refl; cursor = refl; valid = v; follows = λ o. o }

  back_row : 0 < top → Scrolled c rows top y x (record c { crtc_start = c.crtc_start - scr_width })
  back_row h =
      let back : c.crtc_start - scr_width ≡ c.orig + (top - 1) * scr_width =
        omega (arith, v.start) in
      rw back (to_top (top - 1) (omega (arith, v.screen)) (inr (inr (omega arith))))

  -- Back by a row, or from the front to the last screen.
  wrapped_back :
      c.is_full ≡ true
      → Scrolled c rows top y x (
          if leb (c.con_size - scr_size) (usub c.cursor c.orig)
          then (if c.crtc_start == c.orig
              then c
              else record c { crtc_start = c.crtc_start - scr_width })
          else (if c.crtc_start == c.orig
              then record c { crtc_start = c.orig + (c.con_size - scr_size) }
              else record c { crtc_start = c.crtc_start - scr_width }))
  wrapped_back full = elim (Bool-cases (c.crtc_start == c.orig)) [
    | inl front ↦
        let end : c.con_size - scr_size ≡ (rows - 25) * scr_width = omega (arith, v.size) in
        rw (front, end)
          (elim (Bool-cases (leb ((rows - 25) * scr_width) (usub c.cursor c.orig))) [
            | inl e ↦ rw e unmoved
            | inr e ↦ rw e (to_top (rows - 25) (omega (arith, v.screen)) (inl full))
          ])
    | inr far ↦
        let one = back_row (ground (arith, v.start)) in
        rw far (elim (Bool-cases (leb (c.con_size - scr_size) (usub c.cursor c.orig))) [
          | inl e ↦ rw e one
          | inr e ↦ rw e one
        ])
  ]

  scroll_dn-Scrolled : Scrolled c rows top y x (scroll_screen c scr_dn)
  unfolding scroll_screen
  scroll_dn-Scrolled =
      rw (start_off c rows top y x v)
        (elim (Bool-cases (not c.is_full && ltb 0 (top * scr_width))) [
          | inl e ↦ rw e (back_row (ground arith))
          | inr e ↦
              rw e
                (elim (Bool-cases (
                  c.is_full
                  && not (
                      top * scr_width == (
                        if c.is_full
                        then (usub c.cursor c.orig / scr_width * scr_width + scr_width) % c.con_size
                        else 0)))) [
                          | inl wrapped ↦ rw wrapped (wrapped_back (ground arith))
                          | inr none ↦ rw none unmoved
                        ])
        ])

  forward_row :
      top + 26 ≤ rows
      → ((c.is_full ≡ true) ⊎ (top + 1 ≤ y))
      → Scrolled c rows top y x (record c { crtc_start = c.crtc_start + scr_width })
  forward_row h near =
      let next : c.crtc_start + scr_width ≡ c.orig + (top + 1) * scr_width =
        omega (arith, v.start) in
      rw next (to_top (top + 1) (omega arith) (shift near))
    where
      shift :
          ((c.is_full ≡ true) ⊎ (top + 1 ≤ y))
          → (c.is_full ≡ true) ⊎ (top + 1 ≤ y) ⊎ (top + 1 ≤ top)
      shift (inl full) = inl full
      shift (inr l) = inr (inl l)

  to_front : c.is_full ≡ true → Scrolled c rows top y x (record c { crtc_start = c.orig })
  to_front full =
      let front : c.orig + 0 * scr_width ≡ c.orig = omega arith in
      rw front at (to_top 0 (omega (arith, v.screen)) (inl full))

  scroll_up-Scrolled : Scrolled c rows top y x (scroll_screen c scr_up)
  unfolding scroll_screen
  scroll_up-Scrolled =
      rw (start_off c rows top y x v, newest c rows top y x v)
        (elim (Bool-cases (not c.is_full && leb (top * scr_width + scr_size) (y * scr_width))) [
          | inl e ↦ rw e (forward_row (ground (arith, v.row)) (inr (ground arith)))
          | inr e ↦
              rw e
                (elim (Bool-cases
                  (c.is_full && not (top * scr_width + scr_size - scr_width == y * scr_width))) [
                    | inl wrapped ↦
                        rw wrapped (elim (Bool-cases (top * scr_width + scr_size == c.con_size)) [
                          | inl last ↦ rw last (to_front (ground arith))
                          | inr inner ↦
                              rw inner (
                                forward_row (ground (arith, v.size, v.screen)) (inl (ground arith)))
                        ])
                    | inr none ↦ rw none unmoved
                  ])
        ])

-- On a well-formed console `scroll_screen`, in either direction, gives a well-formed console with
-- the same cursor; if the console has not wrapped and its screen does not start below the cursor,
-- neither does the new one.
pub scroll_screen-Scrolled :
    (c : Console) (dir : Dir) (rows top y x : ℕ)
    → IsConsole c rows top y x
    → Scrolled c rows top y x (scroll_screen c dir)
scroll_screen-Scrolled c scr_up rows top y x v = scroll_up-Scrolled c rows top y x v
scroll_screen-Scrolled c scr_dn rows top y x v = scroll_dn-Scrolled c rows top y x v

-- Each of the three consoles is well formed at the start, with 68 rows and the screen at the top,
-- if what the boot has shown lies within the first; each ends before the next begins, and within
-- the 16384 cells of the video memory.
pub init_console-IsConsole :
    (nr_tty disp_pos : ℕ)
    → nr_tty < nr_consoles
    → disp_pos < 10880
    → ((y : ℕ) × (x : ℕ) × IsConsole (init_console nr_tty disp_pos) 68 0 y x)
      × ((init_console nr_tty disp_pos).orig + (init_console nr_tty disp_pos).con_size
          ≤ (init_console (nr_tty + 1) disp_pos).orig)
      × ((init_console nr_tty disp_pos).orig + (init_console nr_tty disp_pos).con_size ≤ 0x4000)
unfolding init_console
init_console-IsConsole nr_tty disp_pos h g = (
  (
    (if nr_tty == 0 then disp_pos / 2 / scr_width else 0),
    (if nr_tty == 0 then disp_pos / 2 % scr_width else 0),
    record {
      size = omega arith;
      screen = omega arith;
      end = omega arith;
      start = omega arith;
      cursor = ground arith;
      row = ground arith;
      column = ground arith;
    },
  ),
  omega arith,
  omega arith,
)
