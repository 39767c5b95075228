-- ===== src/Console/Output.antt =====
-- kernel/console.c: `out_char` keeps the cursor on the screen and in the console's memory.
use osin32bits.Base.{
  ℕ, zero, suc, ◌+◌, ◌-◌, ◌*◌, ◌≤◌, ◌<◌, ◌≡◌, refl, ◌≢◌, ◌⊎◌, inl, inr, true, false, ◌||◌, ok,
  fault, out_of_fuel, arith, ltb, leb, ap, update,
}
use osin32bits.Console.{
  default_char_color, scr_width, scr_size, Console, Video, usub, scr_up, scroll_screen,
  clear_screen, place_char, wrap_screen, follow_cursor, out_char,
}
use osin32bits.Console.Scroll.{
  IsConsole, cursor_off, rounds, follow_cursor-ends, newest, start_off, off-rows,
}
use osin32bits.Console.Steps.{Moved, place_char-Moved, wrap_screen-IsConsole}

rounds-lt :
    (c : Console) (rows top y x fuel : ℕ)
    → IsConsole c rows top y x
    → 2 * rows ≤ fuel
    → rounds rows top y < fuel
rounds-lt c rows top y x fuel v h = ground (arith, v.screen, v.row)

in_memory :
    (c : Console) (rows top y x : ℕ)
    → IsConsole c rows top y x
    → ltb (usub c.cursor c.orig) c.con_size ≡ true
in_memory c rows top y x v =
    rw (cursor_off c rows top y x v) (ground (arith, v.size, v.row, v.column))

-- A character that `out_char` can place: unless the console has wrapped, no backspace at the first
-- cell of a screen that has scrolled.
abbrev pub Placeable : Console → (ch : ℕ) → Type 0
Placeable c ch =
    (c.is_full ≡ true) ⊎ ((ch ≢ 8) ⊎ ((c.cursor ≢ c.crtc_start) ⊎ (c.crtc_start ≡ c.orig)))

-- `out_char` on a well-formed console that has wrapped or whose screen does not start below the
-- cursor, with fuel for two rounds a row: both assertions hold and it returns, with a well-formed
-- console and the cursor on the screen; except for a backspace at the first cell of a scrolled
-- screen before the console has wrapped.
pub out_char-IsConsole :
    (fuel : ℕ) (c : Console) (m : Video) (ch rows top y x : ℕ)
    → IsConsole c rows top y x
    → ((c.is_full ≡ true) ⊎ (top ≤ y))
    → Placeable c ch
    → 2 * rows ≤ fuel
    → (c' : Console) × (m' : Video) × (top' : ℕ) × (y' : ℕ) × (x' : ℕ) × (out_char fuel c m ch
        ≡ ok (c', m'))
      × IsConsole c' rows top' y' x'
      × (top' ≤ y')
      × (y' < top' + 25)
unfolding out_char
out_char-IsConsole fuel c m ch rows top y x v wraps safe h =
    let move = place_char-Moved c m ch rows top y x v in
    let m1 = (place_char c m ch).1 in
    let (t1, y1, x1, w, wraps1) =
      wrap_screen-IsConsole c m1 rows top y x v move.off' move.inside (kept wraps safe move) in
    let placed : place_char c m ch ≡ (record c { cursor = c.orig + move.off' }, m1) =
      ap (λ (d : Console). (d, m1)) move.same in
    let before : ltb (usub c.cursor c.orig) c.con_size ≡ true = in_memory c rows top y x v in
    let s = wrap_screen (record c { cursor = c.orig + move.off' }, m1) in
    let after : ltb (usub s.0.cursor s.0.orig) s.0.con_size ≡ true =
      in_memory s.0 rows t1 y1 x1 w in
    let (c', m', t2, run, u, low, high, _) =
      follow_cursor-ends fuel s.0 s.1 rows t1 y1 x1 w wraps1
        (rounds-lt s.0 rows t1 y1 x1 fuel w h) in
    (c', m', t2, y1, x1, rw (before, placed, after) run, u, low, high)
  where
    kept :
        ((c.is_full ≡ true) ⊎ (top ≤ y))
        → Placeable c ch
        → (move : Moved c ch rows (y * scr_width + x) (place_char c m ch).0)
        → (c.is_full ≡ true) ⊎ (top * scr_width ≤ move.off')
    kept (inl full) safe move = inl full
    kept (inr low) (inl full) move = inl full
    kept (inr low) (inr (inl n)) move = inr (omega (arith, move.stays n))
    kept (inr low) (inr (inr (inl n))) move = inr (omega (arith, v.start, v.cursor, n, move.back))
    kept (inr low) (inr (inr (inr e))) move = inr (omega (arith, v.start, e))

scroll_up-stays :
    (c : Console) (rows top y x : ℕ)
    → IsConsole c rows top y x
    → c.is_full ≡ false
    → y < top
    → scroll_screen c scr_up ≡ c
unfolding scroll_screen
scroll_up-stays c rows top y x v fresh h =
    let above : leb (top * scr_width + scr_size) (y * scr_width) ≡ false = ground arith in
    rw (fresh, newest c rows top y x v, start_off c rows top y x v, above)

follow_cursor-stuck :
    (fuel : ℕ) (c : Console) (m : Video) (rows top y x : ℕ)
    → IsConsole c rows top y x
    → c.is_full ≡ false
    → y < top
    → follow_cursor fuel (c, m) ≡ fault out_of_fuel
unfolding follow_cursor
follow_cursor-stuck zero c m rows top y x v fresh h = refl
follow_cursor-stuck (suc fuel) c m rows top y x v fresh h =
    let off : (leb (top + 25) y || ltb y top) ≡ true = ground arith in
    let again =
      follow_cursor-stuck fuel c (clear_screen m c.cursor scr_width) rows top y x v fresh h in
    rw (off-rows c rows top y x v, off, scroll_up-stays c rows top y x v fresh h, again)

-- For a backspace at the first cell of a screen that has scrolled, on a well-formed console that
-- has not wrapped, `out_char` exhausts every fuel: it never returns.
pub out_char-stuck :
    (fuel : ℕ) (c : Console) (m : Video) (rows top y x : ℕ)
    → IsConsole c rows top y x
    → c.is_full ≡ false
    → c.cursor ≡ c.crtc_start
    → c.crtc_start ≢ c.orig
    → out_char fuel c m 8 ≡ fault out_of_fuel
unfolding out_char place_char wrap_screen
out_char-stuck fuel c m rows top y x v fresh at n =
    let under : ltb c.orig c.cursor ≡ true = ground (arith, v.start) in
    let scrolled : 0 < top = omega (arith, v.start, n) in
    let w : IsConsole (record c { cursor = c.cursor - 1 }) rows top (top - 1) 79 = record {
      size = v.size;
      screen = v.screen;
      end = v.end;
      start = v.start;
      cursor = omega (arith, v.start);
      row = omega (arith, v.screen);
      column = omega arith;
    } in
    let before = in_memory c rows top y x v in
    let after = in_memory (record c { cursor = c.cursor - 1 }) rows top (top - 1) 79 w in
    let no_wrap : leb c.con_size (usub (c.cursor - 1) c.orig) ≡ false = ground (arith, after) in
    let stuck =
      follow_cursor-stuck fuel (record c { cursor = c.cursor - 1 })
        (update m (c.cursor - 1) (0, default_char_color)) rows top (top - 1) 79 w fresh
        (omega arith) in
    rw (before, under, no_wrap, after, stuck)
