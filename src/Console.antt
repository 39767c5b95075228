-- ===== src/Console.antt =====
-- kernel/console.c: the consoles and the video memory. A cell of the memory is a character with its
-- colour, and addresses count cells. The registers of the display that `flush` writes are left out.
pub mod Scroll
pub mod Steps
pub mod Output
pub mod Moves
mod Tests
use osin32bits.Base.{
  ℕ, zero, suc, ◌+◌, ◌-◌, ◌*◌, ◌/◌, ◌%◌, ◌^◌, Bool, true, false, not, ◌&&◌, ◌||◌, Run, ok, fault,
  out_of_fuel, ◌>>=◌, ◌>>◌, assert, ◌==◌, ltb, leb, update, if◌then◌else◌,
}

abbrev pub scr_width : ℕ
scr_width = 80

-- SCR_SIZE
abbrev pub scr_size : ℕ
scr_size = 2000

abbrev pub default_char_color : ℕ
default_char_color = 0x07

-- `CONSOLE`
pub record Console : Type 0 where
  pub crtc_start : ℕ
  pub orig : ℕ
  pub con_size : ℕ
  pub cursor : ℕ
  pub is_full : Bool

abbrev pub Video : Type 0
Video = ℕ → ℕ × ℕ

-- Subtraction of unsigned ints.
unfoldable pub usub : ℕ → ℕ → ℕ
usub a b = (a + 2 ^ 32 - b) % 2 ^ 32

pub data Dir : Type 0 where
  scr_up scr_dn : Dir

-- `scroll_screen`
unfoldable pub scroll_screen : Console → Dir → Console
scroll_screen c scr_dn =
    let newest = usub c.cursor c.orig / scr_width * scr_width in
    let oldest = if c.is_full then (newest + scr_width) % c.con_size else 0 in
    let scr_top = usub c.crtc_start c.orig in
    if not c.is_full && ltb 0 scr_top
    then record c { crtc_start = c.crtc_start - scr_width }
    else (if c.is_full && not (scr_top == oldest)
        then (if leb (c.con_size - scr_size) (usub c.cursor c.orig)
            then (if c.crtc_start == c.orig
                then c
                else record c { crtc_start = c.crtc_start - scr_width })
            else (if c.crtc_start == c.orig
                then record c { crtc_start = c.orig + (c.con_size - scr_size) }
                else record c { crtc_start = c.crtc_start - scr_width }))
        else c)
scroll_screen c scr_up =
    let newest = usub c.cursor c.orig / scr_width * scr_width in
    let scr_top = usub c.crtc_start c.orig in
    if not c.is_full && leb (scr_top + scr_size) newest
    then record c { crtc_start = c.crtc_start + scr_width }
    else (if c.is_full && not (scr_top + scr_size - scr_width == newest)
        then (if scr_top + scr_size == c.con_size
            then record c { crtc_start = c.orig }
            else record c { crtc_start = c.crtc_start + scr_width })
        else c)

-- `clear_screen`
unfoldable pub clear_screen : Video → (pos len : ℕ) → Video
clear_screen v pos len i = if leb pos i && ltb i (pos + len) then (32, default_char_color) else v i

-- `w_copy`, of cells that do not overlap.
unfoldable pub w_copy : Video → (dst src size : ℕ) → Video
w_copy v dst src size i = if leb dst i && ltb i (dst + size) then v (src + (i - dst)) else v i

-- The `switch` of `out_char`.
unfoldable pub place_char : Console → Video → ℕ → Console × Video
place_char c v ch =
    let cursor_y = usub c.cursor c.orig / scr_width in
    if ch == 10
    then (record c { cursor = c.orig + scr_width * (cursor_y + 1) }, v)
    else (if ch == 8
        then (if ltb c.orig c.cursor
            then (
              record c { cursor = c.cursor - 1 },
              update v (c.cursor - 1) (0, default_char_color),
            )
            else (c, v))
        else (record c { cursor = c.cursor + 1 }, update v c.cursor (ch, default_char_color)))

-- At the end of its memory the console moves its last screen to the front.
unfoldable pub wrap_screen : Console × Video → Console × Video
wrap_screen (c, v) =
    let cursor_x = usub c.cursor c.orig % scr_width in
    let cursor_y = usub c.cursor c.orig / scr_width in
    let cp_orig = c.orig + (cursor_y + 1) * scr_width - scr_size in
    let cursor' = c.orig + (scr_size - scr_width) + cursor_x in
    if leb c.con_size (usub c.cursor c.orig)
    then (
      record c { crtc_start = c.orig; cursor = cursor'; is_full = true },
      clear_screen (w_copy v c.orig cp_orig (scr_size - scr_width)) cursor' scr_width,
    )
    else (c, v)

-- Whether the cursor is on the screen.
abbrev pub is_off_screen : Console → Bool
is_off_screen c = leb (c.crtc_start + scr_size) c.cursor || ltb c.cursor c.crtc_start

-- The `while` of `out_char`, on fuel.
unfoldable pub follow_cursor : ℕ → Console × Video → Run (Console × Video)
follow_cursor zero s = fault out_of_fuel
follow_cursor (suc fuel) (c, v) =
    let c' = scroll_screen c scr_up in
    let rest = follow_cursor fuel (c', clear_screen v c'.cursor scr_width) in
    if is_off_screen c then rest else ok (c, v)

-- `out_char`
unfoldable pub out_char : (fuel : ℕ) → Console → Video → ℕ → Run (Console × Video)
out_char fuel c v ch = do
  assert (ltb (usub c.cursor c.orig) c.con_size)
  let s = wrap_screen (place_char c v ch)
  assert (ltb (usub s.0.cursor s.0.orig) s.0.con_size)
  follow_cursor fuel s

-- NR_CONSOLES
abbrev pub nr_consoles : ℕ
nr_consoles = 3

-- The console of the terminal `nr_tty`, as `init_screen` sets it before it prints the prompt.
unfoldable pub init_console : (nr_tty disp_pos : ℕ) → Console
init_console nr_tty disp_pos =
    let size_per_con = 0x8000 / 2 / nr_consoles in
    let orig = nr_tty * size_per_con in
    record {
      crtc_start = orig;
      orig = orig;
      con_size = size_per_con / scr_width * scr_width;
      cursor = (if nr_tty == 0 then disp_pos / 2 else orig);
      is_full = false;
    }

-- `select_console`: the new `current_console`. A number below 0 is not called for: `in_process`
-- passes `raw_code - F1`.
unfoldable pub select_console : (current_console nr_console : ℕ) → ℕ
select_console current_console nr_console =
    if leb nr_consoles nr_console then current_console else nr_console
