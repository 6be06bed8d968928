-- ===== src/Console/Draw.antt =====
-- What `ScreenDraw` puts on the screen.
use power_boot.Prelude.{
  ℕ, suc, ◌+◌, ◌≡◌, refl, sym, ap, ◌∙◌, false, Option, none, some, List, [], ◌∷◌, ◌++◌,
  append_assoc, append-nil, arith, and_then,
}
use power_boot.Prelude.Text.{Text, joined}
use power_boot.Console.{
  Screen, short, char_step, advance, draw_line, draw_lines, blank, screen_draw,
}
use power_boot.Console.Visible.{
  has_escape, visible, has_escape-append, visible-append, newlines-append,
}
use power_boot.Console.Drawing.{text_of, IsPlain, Drew, DrewOr, step-DrewOr}

-- Where the pen is in its row does not matter.
pen_moved :
    (m : Text) (x : ℕ) (t : Screen) (o : Option Screen)
    → DrewOr m (record t { x = x }) o
    → DrewOr m t o
pen_moved m x t none h = h
pen_moved m x t (some u) (e, d) = (e, record { plain = d.plain; text = d.text; row = d.row })

Drew-append : (l m : Text) (s t u : Screen) → Drew l s t → Drew m t u → Drew (l ++ m) s u
Drew-append l m s t u d e = record {
  plain = e.plain;
  text =
      e.text
      ∙ ap (λ b. b ++ visible m) d.text
      ∙ append_assoc (text_of s.drawn) (visible l) (visible m)
      ∙ ap (λ b. text_of s.drawn ++ b) (sym (visible-append l m));
  row = omega (arith, d.row, e.row, newlines-append l m);
}

after_text :
    (l m : Text) (s t : Screen) (o : Option Screen)
    → has_escape l ≡ false
    → Drew l s t
    → DrewOr m t o
    → DrewOr (l ++ m) s o
after_text l m s t none none_yet d h = rw (has_escape-append l m, none_yet) h
after_text l m s t (some u) none_yet d (e, f) =
    (rw (has_escape-append l m, none_yet) e, Drew-append l m s t u d f)

chain :
    (l m : Text) (s : Screen) (o : Option Screen) (k : Screen → Option Screen)
    → DrewOr l s o
    → ((t : Screen) → IsPlain t → DrewOr m t (k t))
    → DrewOr (l ++ m) s (and_then o k)
chain l m s none k h rest = rw (has_escape-append l m, h) refl
chain l m s (some t) k (e, d) rest = after_text l m s t (k t) e d (rest t d.plain)

draw_line-DrewOr :
    (char_width : ℕ → ℕ) (left ch : ℕ) (line : Text) (s : Screen)
    → IsPlain s
    → DrewOr line s (draw_line char_width left ch line s)
unfolding draw_line
draw_line-DrewOr char_width left ch [] s p =
    (refl, record { plain = p; text = sym (append-nil (text_of s.drawn)); row = omega arith })
draw_line-DrewOr char_width left ch (c ∷ line) s p =
    chain (c ∷ []) line s (char_step left c s) _ (step-DrewOr left c s p) λ t q.
      pen_moved line _ t _ (
        draw_line-DrewOr char_width left (suc ch) line (advance char_width ch t) (record {
          not_making = q.not_making;
          no_codes = q.no_codes;
          fore = q.fore;
          back = q.back;
          silent = q.silent;
        }))

draw_lines-DrewOr :
    (char_width : ℕ → ℕ) (left : ℕ) (lines : List Text) (s : Screen)
    → IsPlain s
    → DrewOr (joined lines) s (draw_lines char_width left lines s)
unfolding draw_lines
draw_lines-DrewOr char_width left [] s p =
    (refl, record { plain = p; text = sym (append-nil (text_of s.drawn)); row = omega arith })
draw_lines-DrewOr char_width left (line ∷ lines) s p =
    chain line (joined lines) s _ _
      (pen_moved line (short (left + 9)) s _ (
        draw_line-DrewOr char_width left 0 line _ (record {
          not_making = p.not_making;
          no_codes = p.no_codes;
          fore = p.fore;
          back = p.back;
          silent = p.silent;
        })))
      λ t q. draw_lines-DrewOr char_width left lines t q

pub screen_draw-DrewOr :
    (char_width : ℕ → ℕ) (top left : ℕ) (line_buffer : List Text)
    → DrewOr (joined line_buffer) (blank top) (screen_draw char_width top left line_buffer)
unfolding screen_draw
screen_draw-DrewOr char_width top left line_buffer =
    draw_lines-DrewOr char_width left line_buffer (blank top)
      (record { not_making = refl; no_codes = refl; fore = refl; back = refl; silent = refl })
