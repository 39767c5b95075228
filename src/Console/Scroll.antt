-- ===== src/Console/Scroll.antt =====
-- kernel/console.c: the screen follows the cursor.
use osin32bits.Base.{
  ℕ, zero, suc, ◌+◌, ◌-◌, ◌*◌, ◌/◌, ◌^◌, ◌≤◌, ◌<◌, ◌≡◌, refl, ◌≢◌, ◌⊎◌, inl, inr, true, false, ◌||◌,
  ok, arith, ◌==◌, ltb, leb, Bool-cases, if◌then◌else◌,
}
use osin32bits.Console.{
  scr_width, scr_size, Console, Video, usub, scr_up, scroll_screen, clear_screen, is_off_screen,
  follow_cursor,
}

-- A console of `rows` rows whose screen starts at its row `top`, with the cursor at row `y`, column
-- `x`.
pub record IsConsole (c : Console) (rows top y x : ℕ) : Type 0 where
  pub size : c.con_size ≡ rows * scr_width
  pub screen : top + 25 ≤ rows
  pub end : c.orig + c.con_size < 2 ^ 31
  pub start : c.crtc_start ≡ c.orig + top * scr_width
  pub cursor : c.cursor ≡ c.orig + (y * scr_width + x)
  pub row : y < rows
  pub column : x < scr_width

pub usub_le : (a b : ℕ) → b ≤ a → a < 2 ^ 32 → usub a b ≡ a - b
unfolding usub
usub_le a b h g = omega arith

module _ (c : Console) (rows top y x : ℕ) (v : IsConsole c rows top y x) where
  pub cursor_off : usub c.cursor c.orig ≡ y * scr_width + x
  cursor_off = omega (
    arith,
    usub_le c.cursor c.orig (omega (arith, v.cursor))
        (omega (arith, v.cursor, v.row, v.column, v.end, v.size)),
    v.cursor,
  )

  pub start_off : usub c.crtc_start c.orig ≡ top * scr_width
  start_off = omega (
    arith,
    usub_le c.crtc_start c.orig (omega (arith, v.start))
        (omega (arith, v.start, v.screen, v.end, v.size)),
    v.start,
  )

  pub newest : usub c.cursor c.orig / scr_width * scr_width ≡ y * scr_width
  newest = omega (arith, cursor_off, v.column)

  pub off-rows : is_off_screen c ≡ (leb (top + 25) y || ltb y top)
  off-rows = ground (arith, v.start, v.cursor, v.column)

  pub at_top :
      (top' : ℕ)
      → top' + 25 ≤ rows
      → IsConsole (record c { crtc_start = c.orig + top' * scr_width }) rows top' y x
  at_top top' h = record {
    size = v.size;
    screen = h;
    end = v.end;
    start = refl;
    cursor = v.cursor;
    row = v.row;
    column = v.column;
  }

  -- Scrolling up, before the console has wrapped.
  pub scroll_fresh :
      c.is_full ≡ false
      → top + 25 ≤ y
      → scroll_screen c scr_up ≡ record c { crtc_start = c.orig + (top + 1) * scr_width }
  unfolding scroll_screen
  scroll_fresh e h =
      let below : leb (top * scr_width + scr_size) (y * scr_width) ≡ true = ground arith in
      let next : c.crtc_start + scr_width ≡ c.orig + (top + 1) * scr_width =
        omega (arith, v.start) in
      rw (e, newest, start_off, below, next)

  abbrev pub next_top : ℕ
  next_top = if top + 25 == rows then 0 else top + 1

  -- Scrolling up, once it has.
  pub scroll_full :
      c.is_full ≡ true
      → y ≢ top + 24
      → scroll_screen c scr_up ≡ record c { crtc_start = c.orig + next_top * scr_width }
  unfolding scroll_screen
  scroll_full e h =
      let off : (top * scr_width + scr_size - scr_width == y * scr_width) ≡ false = ground arith in
      rw (e, newest, start_off, off)
        (elim (Bool-cases (top + 25 == rows)) [
          | inl last ↦
              let at_end : (top * scr_width + scr_size == c.con_size) ≡ true =
                ground (arith, v.size) in
              let front : c.orig + 0 ≡ c.orig = omega arith in rw (last, at_end, front)
          | inr inner ↦
              let not_end : (top * scr_width + scr_size == c.con_size) ≡ false =
                ground (arith, v.size) in
              let next : c.crtc_start + scr_width ≡ c.orig + (top + 1) * scr_width =
                omega (arith, v.start) in
              rw (inner, not_end, next)
        ])

-- The rounds that the screen needs to reach the cursor.
abbrev pub rounds : (rows top y : ℕ) → ℕ
rounds rows top y = if ltb y top then rows - 25 - top + 1 + (y - 24) else y - (top + 24)

-- One round of the loop brings the screen nearer to the cursor.
scroll-nearer :
    (c : Console) (rows top y x : ℕ)
    → IsConsole c rows top y x
    → ((c.is_full ≡ true) ⊎ (top ≤ y))
    → is_off_screen c ≡ true
    → (top' : ℕ) × (scroll_screen c scr_up ≡ record c { crtc_start = c.orig + top' * scr_width })
      × IsConsole (record c { crtc_start = c.orig + top' * scr_width }) rows top' y x
      × ((c.is_full ≡ true) ⊎ (top' ≤ y))
      × (rounds rows top' y < rounds rows top y)
scroll-nearer c rows top y x v wraps off =
    let out : (leb (top + 25) y || ltb y top) ≡ true = rw (← off-rows c rows top y x v) off in
    elim (Bool-cases c.is_full) [
      | inl full ↦ (
        next_top c rows top y x v,
        scroll_full c rows top y x v full (ground arith),
        at_top c rows top y x v (next_top c rows top y x v) (ground (arith, v.screen)),
        inl full,
        ground (arith, v.screen, v.row),
      )
      | inr fresh ↦
          let below : top ≤ y = not_above fresh wraps in
          let far : top + 25 ≤ y = ground arith in
          (
            top + 1,
            scroll_fresh c rows top y x v fresh far,
            at_top c rows top y x v (top + 1) (omega (arith, v.row)),
            inr (omega arith),
            ground arith,
          )
    ]
  where
    not_above : c.is_full ≡ false → ((c.is_full ≡ true) ⊎ (top ≤ y)) → top ≤ y
    not_above fresh (inl full) = cc
    not_above fresh (inr h) = h

-- The loop comes to an end, with the screen at the cursor, unless the cursor is above a screen that
-- cannot wrap.
pub follow_cursor-ends :
    (fuel : ℕ) (c : Console) (m : Video) (rows top y x : ℕ)
    → IsConsole c rows top y x
    → ((c.is_full ≡ true) ⊎ (top ≤ y))
    → rounds rows top y < fuel
    → (c' : Console) × (m' : Video) × (top' : ℕ) × (follow_cursor fuel (c, m) ≡ ok (c', m'))
      × IsConsole c' rows top' y x
      × (top' ≤ y)
      × (y < top' + 25)
      × (c'.is_full ≡ c.is_full)
unfolding follow_cursor
follow_cursor-ends zero c m rows top y x v wraps h = absurd (omega arith)
follow_cursor-ends (suc fuel) c m rows top y x v wraps h = elim (Bool-cases (is_off_screen c)) [
  | inl off ↦
      let (top', scrolled, w, wraps', nearer) = scroll-nearer c rows top y x v wraps off in
      let (c', m', top'', run, u, low, high, same) =
        follow_cursor-ends fuel (record c { crtc_start = c.orig + top' * scr_width })
          (clear_screen m c.cursor scr_width) rows top' y x w wraps' (omega arith) in
      (c', m', top'', rw (off, scrolled) run, u, low, high, same)
  | inr on ↦
      let seen : (leb (top + 25) y || ltb y top) ≡ false = rw (← off-rows c rows top y x v) on in
      (c, m, top, rw on, v, ground arith, ground arith, refl)
]
