-- ===== src/Tty/Write.antt =====
-- kernel/tty.c: what `tty_dev_write` does with the keys of a terminal.
use osin32bits.Base.{
  ℕ, suc, ◌*◌, ◌≤◌, ◌<◌, ◌≡◌, refl, ap, sym, ◌∙◌, false, inl, inr, List, [], ◌∷◌, ◌++◌, ok, ◌>>=◌,
  arith, ◌==◌, has, length, Bool-cases,
}
use osin32bits.Console.{Console, Video}
use osin32bits.Ring.Queue.{IsRing, queue_of}
use osin32bits.Tty.{tty_in_bytes, new_line, backspace, is_printable, Terminal, tty_dev_write}
use osin32bits.Tty.Trace.{Trace}
use osin32bits.Tty.Line.{echoed}
use osin32bits.Tty.Keys.{with_ring}
use osin32bits.Tty.Runs.{Typed, asked, got, chars, trace_keys, trace_keys-Typed}
use osin32bits.Tty.Output.{out_chars, HasShown, out_chars-HasShown}
use osin32bits.Tty.Echo.{on_screen, dev_write-Shows}

-- A terminal before its keys: nothing is shown yet.
abbrev pub unshown : Terminal → Trace
unshown s = record { tty = s.tty; shown = []; bytes = s.bytes; sent = s.sent }

-- The characters in the ring.
abbrev pub queued_chars : Terminal → List ℕ
queued_chars s = chars (queue_of tty_in_bytes s.tty.ibuf)

-- On a terminal with a request and a ring that is well formed, `tty_dev_write` does this: it shows the
-- characters of `echoed` for what the buffer of the request held and the keys of the ring, one after
-- the other, and fails or hangs if `out_char` does so on one of them; else it returns with an empty
-- ring. The buffer then holds the line that `typed` computes, nothing outside the buffer changes, and
-- the message that completes the request is sent once, with the length of the line, exactly if
-- `typed` says that the line is complete.
pub tty_dev_write-Typed :
    (fuel : ℕ) (s : Terminal)
    → IsRing tty_in_bytes s.tty.ibuf
    → 0 < s.tty.tty_left_cnt
    → (u : Trace) × (tty_dev_write fuel s ≡ (
        out_chars fuel (echoed (asked (unshown s)) (got (unshown s)) (queued_chars s)) s.screen
        >>= λ w. ok (on_screen u w)))
      × (u.tty.ibuf.count ≡ 0)
      × Typed (unshown s) (asked (unshown s)) (got (unshown s)) (queued_chars s) u
unfolding tty_dev_write
tty_dev_write-Typed fuel s v h =
    let q = queue_of tty_in_bytes s.tty.ibuf in
    let (r, empty, shows) =
      dev_write-Shows fuel (suc s.tty.ibuf.count) (unshown s) s.tty.ibuf v (omega arith) in
    let t = trace_keys-Typed (unshown s) q h in
    let u = with_ring (trace_keys (unshown s) q) r in
    (
      u,
      shows.runs s.screen
          ∙ ap (λ l. out_chars fuel l s.screen >>= λ w. ok (on_screen u w))
              (sym shows.adds ∙ t.shown),
      empty,
      record {
        text = t.text;
        answer = t.answer;
        left = t.left;
        fits = t.fits;
        shown = t.shown;
        outside = t.outside;
      },
    )

-- Without a backspace among the keys none is shown.
echoed-has :
    (cnt : ℕ) (line cs : List ℕ)
    → has backspace cs ≡ false
    → has backspace (echoed cnt line cs) ≡ false
unfolding echoed
echoed-has cnt line [] h = refl
echoed-has cnt line (c ∷ cs) h =
    let here : (c == backspace) ≡ false = ground arith in
    let other : (backspace == c) ≡ false = ground arith in
    let rest : has backspace cs ≡ false = ground arith in
    elim (Bool-cases (c == new_line)) [
      | inl e ↦ rw e refl
      | inr e ↦ elim (Bool-cases (is_printable c)) [
        | inl p ↦ elim (Bool-cases (suc (length line) == cnt)) [
          | inl l ↦ rw (e, p, l, other) refl
          | inr l ↦ rw (e, p, l, other) (echoed-has cnt (line ++ c ∷ []) cs rest)
        ]
        | inr p ↦ rw (e, p, here) (echoed-has cnt line cs rest)
      ]
    ]

-- On a terminal with a request and a ring that is well formed, without a backspace in it, whose console
-- is well formed and has the cursor on its screen, `tty_dev_write` returns, with fuel for two rounds a
-- row in `out_char`: the ring is empty, the characters of `echoed` have been shown, and the console is
-- well formed again with the cursor on its screen.
pub tty_dev_write-HasShown :
    (fuel : ℕ) (s : Terminal) (rows : ℕ)
    → IsRing tty_in_bytes s.tty.ibuf
    → 0 < s.tty.tty_left_cnt
    → has backspace (queued_chars s) ≡ false
    → 2 * rows ≤ fuel
    → HasShown rows s.screen
    → (u : Trace) × (w : Console × Video) × (tty_dev_write fuel s ≡ ok (on_screen u w))
      × (out_chars fuel (echoed (asked (unshown s)) (got (unshown s)) (queued_chars s)) s.screen
          ≡ ok w)
      × HasShown rows w
      × (u.tty.ibuf.count ≡ 0)
tty_dev_write-HasShown fuel s rows v h plain enough g =
    let (u, run, empty, t) = tty_dev_write-Typed fuel s v h in
    let (w, shows, g') =
      out_chars-HasShown fuel (echoed (asked (unshown s)) (got (unshown s)) (queued_chars s))
        s.screen rows (echoed-has (asked (unshown s)) (got (unshown s)) (queued_chars s) plain)
        enough g in
    (u, w, run ∙ ap (λ x. x >>= λ w'. ok (on_screen u w')) shows, shows, g', empty)
