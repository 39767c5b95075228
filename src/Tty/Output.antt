-- ===== src/Tty/Output.antt =====
-- kernel/tty.c: what `tty_do_write` shows.
use osin32bits.Base.{
  ℕ, zero, suc, ◌+◌, ◌-◌, ◌*◌, ◌≤◌, ◌<◌, ◌≡◌, ◌≢◌, refl, ap, sym, ◌∙◌, inl, inr, false, List, [],
  ◌∷◌, ◌++◌, Run, ok, fault, ◌>>=◌, arith, ◌==◌, has, min,
}
use osin32bits.Proc.Types.{Message, Kernel, va2la}
use osin32bits.Console.{Console, Video, out_char}
use osin32bits.Console.Scroll.{IsConsole}
use osin32bits.Console.Output.{out_char-IsConsole}
use osin32bits.Tty.{backspace}
use osin32bits.Tty.Line.{read_bytes}
use osin32bits.Tty.Task.{tty_out_buf_len, syscall_ret, write_buf, write_bytes, tty_do_write}

-- A text on a console, one character after the other.
unfoldable pub out_chars : (fuel : ℕ) → List ℕ → Console × Video → Run (Console × Video)
out_chars fuel [] s = ok s
out_chars fuel (ch ∷ chs) (c, v) = do s ← out_char fuel c v ch; out_chars fuel chs s

pub >>=-cong :
    {A B : Type 0} (r : Run A) {f g : A → Run B} → ((x : A) → f x ≡ g x) → (r >>= f) ≡ (r >>= g)
>>=-cong (ok x) h = h x
>>=-cong (fault e) h = refl

pub >>=_assoc :
    {A B C : Type 0} (r : Run A) (f : A → Run B) (g : B → Run C)
    → ((r >>= f) >>= g) ≡ (r >>= λ x. f x >>= g)
>>=_assoc (ok x) f g = refl
>>=_assoc (fault e) f g = refl

write_buf-out_chars :
    (fuel : ℕ) (mem : ℕ → ℕ) (p n j : ℕ) (s : Console × Video)
    → write_buf fuel (λ i. mem (p + i)) n j s ≡ out_chars fuel (read_bytes mem (p + j) n) s
unfolding write_buf out_chars
write_buf-out_chars fuel mem p zero j s = refl
write_buf-out_chars fuel mem p (suc n) j (c, v) = >>=-cong (out_char fuel c v (mem (p + j))) (λ s.
    write_buf-out_chars fuel mem p n (j + 1) s
    ∙ ap (λ a. out_chars fuel (read_bytes mem a n) s) (omega arith))

pub out_chars-append :
    (fuel : ℕ) (xs ys : List ℕ) (s : Console × Video)
    → out_chars fuel (xs ++ ys) s ≡ (out_chars fuel xs s >>= out_chars fuel ys)
unfolding out_chars
out_chars-append fuel [] ys s = refl
out_chars-append fuel (x ∷ xs) ys (c, v) =
    >>=-cong (out_char fuel c v x) (out_chars-append fuel xs ys)
    ∙ sym (>>=_assoc (out_char fuel c v x) (out_chars fuel xs) (out_chars fuel ys))

read_bytes-add :
    (mem : ℕ → ℕ) (a m n : ℕ)
    → read_bytes mem a (m + n) ≡ read_bytes mem a m ++ read_bytes mem (a + m) n
read_bytes-add mem a zero n =
    let left : 0 + n ≡ n = omega arith in let here : a + 0 ≡ a = omega arith in rw (left, here)
read_bytes-add mem a (suc m) n =
    let left : suc m + n ≡ suc (m + n) = omega arith in
    let there : a + suc m ≡ a + 1 + m = omega arith in
    rw (left, there, read_bytes-add mem (a + 1) m n)

-- The buffer makes no difference.
pub write_bytes-out_chars :
    (fuel rounds : ℕ) (mem : ℕ → ℕ) (p n : ℕ) (s : Console × Video)
    → n < rounds
    → write_bytes fuel rounds mem p n s ≡ out_chars fuel (read_bytes mem p n) s
unfolding write_bytes
write_bytes-out_chars fuel zero mem p n s h = absurd (omega arith)
write_bytes-out_chars fuel (suc rounds) mem p zero s h = unfold out_chars in refl
write_bytes-out_chars fuel (suc rounds) mem p (suc n) s h =
    let b = min tty_out_buf_len (suc n) in
    let chunk = read_bytes mem p b in
    let others = read_bytes mem (p + b) (suc n - b) in
    let more : (suc n == 0) ≡ false = ground arith in
    let whole : b + (suc n - b) ≡ suc n = omega arith in
    rw more (
      >>=-cong (write_buf fuel (λ j. mem (p + j)) b 0 s)
        (λ t. write_bytes-out_chars fuel rounds mem (p + b) (suc n - b) t (omega arith))
      ∙ ap (λ r. r >>= out_chars fuel others)
          (write_buf-out_chars fuel mem p b 0 s
            ∙ ap (λ a. out_chars fuel (read_bytes mem a b) s) (omega arith))
      ∙ sym (out_chars-append fuel chunk others s)
      ∙ ap (λ l. out_chars fuel l s)
          (sym (read_bytes-add mem p b (suc n - b)) ∙ ap (read_bytes mem p) whole))

-- A text without backspace on a well-formed console.
pub record HasShown (rows : ℕ) (s : Console × Video) : Type 0 where
  pub top : ℕ
  pub y : ℕ
  pub x : ℕ
  pub valid : IsConsole s.0 rows top y x
  pub low : top ≤ y
  pub high : y < top + 25

pub out_chars-HasShown :
    (fuel : ℕ) (chs : List ℕ) (s : Console × Video) (rows : ℕ)
    → has backspace chs ≡ false
    → 2 * rows ≤ fuel
    → HasShown rows s
    → (t : Console × Video) × (out_chars fuel chs s ≡ ok t) × HasShown rows t
unfolding out_chars
out_chars-HasShown fuel [] s rows h f g = (s, refl, g)
out_chars-HasShown fuel (ch ∷ chs) (c, v) rows h f g =
    let plain : ch ≢ backspace = ground arith in
    let (c', v', t', y', x', run, w, lo, hi) =
      out_char-IsConsole fuel c v ch rows g.top g.y g.x g.valid (inr g.low) (inr (inl plain)) f in
    let (t, rest, g') =
      out_chars-HasShown fuel chs (c', v') rows (ground arith) f
        (record { top = t'; y = y'; x = x'; valid = w; low = lo; high = hi }) in
    (t, rw run rest, g')

-- A write of a text without backspace to a well-formed console with the cursor on its screen, with
-- fuel for two rounds a row and one round more than it has characters, returns. It shows the
-- characters of the text one after the other, as if there were no buffer, answers SYSCALL_RET, and
-- leaves a well-formed console with the cursor on its screen.
pub tty_do_write-HasShown :
    (fuel rounds : ℕ) (k : Kernel) (mem : ℕ → ℕ) (s : Console × Video) (msg : Message) (rows p : ℕ)
    → va2la k msg.m3i3 msg.m3p2 ≡ ok p
    → msg.m3i2 < rounds
    → 2 * rows ≤ fuel
    → has backspace (read_bytes mem p msg.m3i2) ≡ false
    → HasShown rows s
    → (t : Console × Video) × (tty_do_write fuel rounds k mem s msg
        ≡ ok (t, record msg { type = syscall_ret }))
      × (out_chars fuel (read_bytes mem p msg.m3i2) s ≡ ok t)
      × HasShown rows t
unfolding tty_do_write
tty_do_write-HasShown fuel rounds k mem s msg rows p e r f h g =
    let (t, run, shown) = out_chars-HasShown fuel (read_bytes mem p msg.m3i2) s rows h f g in
    (t, rw (e, write_bytes-out_chars fuel rounds mem p msg.m3i2 s r, run), run, shown)
