-- ===== src/Console/Port/Restored.antt =====
-- Which port, and which clip of a window, is as it was behind `ScreenDraw`.
use power_boot.Prelude.{
  ℕ, ◌^◌, ◌≡◌, ◌<◌, refl, sym, ap, ◌∙◌, true, false, inl, inr, Bool-cases, Option, none, some, List,
  [], ◌∷◌, arith, ◌==◌, ==_iff, if◌then◌else◌,
}
use power_boot.Prelude.Text.{Text, joined}
use power_boot.Console.{Screen, blank, screen_draw}
use power_boot.Console.Drawing.{DrewOr}
use power_boot.Console.Draw.{screen_draw-DrewOr}
use power_boot.Console.Visible.{has_escape}
use power_boot.Console.Port.{Field, GrafPort, put, QuickDraw, QuickDrawLaws, Clip}
use power_boot.Console.Port.Calls.{
  Statement, through_short, execute, block, draw_calls, draw_end, grow_icon, screen_draw_port,
}

-- What statements make of their own port.
abbrev pub puts : List Statement → GrafPort → GrafPort
puts [] p = p
puts (Statement.set f v ∷ cs) p = puts cs (put f v p)
puts (Statement.assign f v ∷ cs) p = puts cs (put f v p)
puts (Statement.paint c ∷ cs) p = puts cs p
puts (Statement.set_clip n r ∷ cs) p = puts cs p

module _ {q : QuickDraw} (laws : QuickDrawLaws q) where
  the_port-execute : (c : Statement) (s : q.State) → q.the_port (execute q c s) ≡ q.the_port s
  the_port-execute (Statement.set f v) s = laws.the_port-set f v s
  the_port-execute (Statement.assign f v) s = laws.the_port-assign f v s
  the_port-execute (Statement.paint c) s = laws.the_port-paint c s
  the_port-execute (Statement.set_clip m r) s = laws.the_port-set_clip m r s

  pub the_port-block :
      (cs : List Statement) (s : q.State) → q.the_port (block q cs s) ≡ q.the_port s
  unfolding block
  the_port-block [] s = refl
  the_port-block (c ∷ cs) s = the_port-block cs (execute q c s) ∙ the_port-execute c s

  own_put :
      (n : ℕ) (f : Field) (v : ℕ) (s : q.State)
      → q.the_port s ≡ n
      → (if n == q.the_port s then put f v (q.port n s) else q.port n s) ≡ put f v (q.port n s)
  own_put n f v s e =
      let same : (n == q.the_port s) ≡ true = (==_iff n (q.the_port s)).1 (sym e) in rw same refl

  pub block-own :
      (cs : List Statement) (n : ℕ) (s : q.State)
      → q.the_port s ≡ n
      → q.port n (block q cs s) ≡ puts cs (q.port n s)
  unfolding block
  block-own [] n s e = refl
  block-own (Statement.set f v ∷ cs) n s e =
      block-own cs n (q.set f v s) (laws.the_port-set f v s ∙ e)
      ∙ ap (puts cs) (laws.port-set n f v s ∙ own_put n f v s e)
  block-own (Statement.assign f v ∷ cs) n s e =
      block-own cs n (q.assign f v s) (laws.the_port-assign f v s ∙ e)
      ∙ ap (puts cs) (laws.port-assign n f v s ∙ own_put n f v s e)
  block-own (Statement.set_clip m r ∷ cs) n s e =
      block-own cs n (q.set_clip m r s) (laws.the_port-set_clip m r s ∙ e)
      ∙ ap (puts cs) (laws.port-set_clip n m r s)
  block-own (Statement.paint c ∷ cs) n s e =
      block-own cs n (q.paint c s) (laws.the_port-paint c s ∙ e)
      ∙ ap (puts cs) (laws.port-paint n c s)

  execute-other :
      (c : Statement) (n : ℕ) (s : q.State)
      → (n == q.the_port s) ≡ false
      → q.port n (execute q c s) ≡ q.port n s
  execute-other (Statement.set f v) n s e = laws.port-set n f v s ∙ rw e refl
  execute-other (Statement.assign f v) n s e = laws.port-assign n f v s ∙ rw e refl
  execute-other (Statement.paint c) n s e = laws.port-paint n c s
  execute-other (Statement.set_clip m r) n s e = laws.port-set_clip n m r s

  pub block-other :
      (cs : List Statement) (n : ℕ) (s : q.State)
      → (n == q.the_port s) ≡ false
      → q.port n (block q cs s) ≡ q.port n s
  unfolding block
  block-other [] n s e = refl
  block-other (c ∷ cs) n s e =
      block-other cs n (execute q c s) (ap (λ m. n == m) (the_port-execute c s) ∙ e)
      ∙ execute-other c n s e

-- What statements make of the clip of a window.
abbrev clips : List Statement → ℕ → Clip → Clip
clips [] n c = c
clips (Statement.set f v ∷ cs) n c = clips cs n c
clips (Statement.assign f v ∷ cs) n c = clips cs n c
clips (Statement.paint p ∷ cs) n c = clips cs n c
clips (Statement.set_clip m r ∷ cs) n c = clips cs n (if n == m then r else c)

module _ {q : QuickDraw} (laws : QuickDrawLaws q) where
  clip-block :
      (cs : List Statement) (n : ℕ) (s : q.State)
      → q.clip n (block q cs s) ≡ clips cs n (q.clip n s)
  unfolding block
  clip-block [] n s = refl
  clip-block (Statement.set f v ∷ cs) n s =
      clip-block cs n (q.set f v s) ∙ ap (clips cs n) (laws.clip-set n f v s)
  clip-block (Statement.assign f v ∷ cs) n s =
      clip-block cs n (q.assign f v s) ∙ ap (clips cs n) (laws.clip-assign n f v s)
  clip-block (Statement.paint p ∷ cs) n s =
      clip-block cs n (q.paint p s) ∙ ap (clips cs n) (laws.clip-paint n p s)
  clip-block (Statement.set_clip m r ∷ cs) n s =
      clip-block cs n (q.set_clip m r s) ∙ ap (clips cs n) (laws.clip-set_clip n m r s)

-- The clip of a window that is replaced and put back.
put_back :
    (clip : ℕ → Clip) (n m : ℕ) (r : Clip)
    → (if n == m then clip m else if n == m then r else clip n) ≡ clip n
put_back clip n m r = elim (Bool-cases (n == m)) [
  | inl e ↦ rw e (ap clip (sym ((==_iff n m).0 e)))
  | inr e ↦ rw e refl
]

-- The colours are old QuickDraw colours, which fit in a `short`.
pub record IsColored (p : GrafPort) : Type 0 where
  pub fore-lt : p.fore < 2 ^ 15
  pub back-lt : p.back < 2 ^ 15

pub through_short-small : (n : ℕ) → n < 2 ^ 15 → through_short n ≡ n
through_short-small n h = ground arith

draws :
    (line : Text) (s : Screen) (o : Option Screen)
    → DrewOr line s o
    → has_escape line ≡ false
    → (t : Screen) × (o ≡ some t)
draws line s none e h = absurd (cc (e, h))
draws line s (some t) e h = (t, refl)

-- What `ScreenDraw` leaves: only the text mode of its port is another one. The clips are the same.
abbrev pub Redrawn : (q : QuickDraw) → q.State → q.State → Type 0
Redrawn q s s' =
    (q.the_port s' ≡ q.the_port s)
    × ((q.port (q.the_port s) s' ≡ record (q.port (q.the_port s) s) { mode = q.src_or })
        × (((n : ℕ) → (n == q.the_port s) ≡ false → q.port n s' ≡ q.port n s)
            × ((n : ℕ) → q.clip n s' ≡ q.clip n s)))

module _ {q : QuickDraw} (laws : QuickDrawLaws q) where
  draw-Redrawn :
      (t : Screen) (s : q.State)
      → IsColored (q.port (q.the_port s) s)
      → Redrawn q s (block q (draw_end q (q.port (q.the_port s) s) t) (block q (draw_calls q) s))
  draw-Redrawn t s colored =
      let own = q.port (q.the_port s) s in
      let kept = the_port-block laws (draw_calls q) s in
      (
        the_port-block laws (draw_end q own t) _ ∙ kept,
        (
          block-own laws (draw_end q own t) (q.the_port s) _ kept
              ∙ ap (puts (draw_end q own t)) (block-own laws (draw_calls q) (q.the_port s) s refl)
              ∙ (rw (through_short-small _ colored.fore-lt, through_short-small _ colored.back-lt)
                  refl),
          (
            λ n e.
                block-other laws (draw_end q own t) n _ (ap (λ m. n == m) kept ∙ e)
                ∙ block-other laws (draw_calls q) n s e,
            λ n. clip-block laws (draw_end q own t) n _ ∙ clip-block laws (draw_calls q) n s,
          ),
        ),
      )

  grow_icon-Redrawn :
      (window : ℕ) (s d : q.State)
      → Redrawn q s d
      → Redrawn q s (block q (grow_icon q window (q.clip window d) (q.port_rect window d)) d)
  grow_icon-Redrawn window s d (current, (own, (other, clip))) =
      let icon = grow_icon q window (q.clip window d) (q.port_rect window d) in
      (
        the_port-block laws icon d ∙ current,
        (
          block-own laws icon (q.the_port s) d current ∙ own,
          (
            λ n e. block-other laws icon n d (ap (λ m. n == m) current ∙ e) ∙ other n e,
            λ n. clip-block laws icon n d ∙ put_back (λ m. q.clip m d) n window _ ∙ clip n,
          ),
        ),
      )

-- `ScreenDraw` of lines without an escape character comes to its end, and then the font, the size,
-- the face and the colours of its port are what they were, the text mode is `srcOr`, no other port
-- has changed, and each window has its clip region as before, if the colours of the port fit in a
-- `short`.
pub screen_draw_port-Redrawn :
    {q : QuickDraw}
    → QuickDrawLaws q
    → (window : ℕ) (width : ℕ → ℕ) (top left : ℕ) (line_buffer : List Text) (s : q.State)
    → IsColored (q.port (q.the_port s) s)
    → has_escape (joined line_buffer) ≡ false
    → (s' : q.State) × ((screen_draw_port q window width top left line_buffer s ≡ some s')
        × Redrawn q s s')
unfolding screen_draw_port
screen_draw_port-Redrawn {q} laws window width top left line_buffer s colored plain = from (
    draws (joined line_buffer) (blank top) (screen_draw width top left line_buffer)
      (screen_draw-DrewOr width top left line_buffer) plain)
  where
    from :
        ((t : Screen) × (screen_draw width top left line_buffer ≡ some t))
        → (s' : q.State) × ((screen_draw_port q window width top left line_buffer s ≡ some s')
            × Redrawn q s s')
    from (t, drew) = (
      _,
      (
        rw (screen_draw_port, drew) refl,
        grow_icon-Redrawn laws window s _ (draw-Redrawn laws t s colored),
      ),
    )
