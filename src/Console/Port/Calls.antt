-- ===== src/Console/Port/Calls.antt =====
-- src/console/console.cpp: `console_setup` and `ScreenDraw` as calls of QuickDraw.
use power_boot.Prelude.{
  ℕ, ◌+◌, ◌-◌, ◌*◌, ◌^◌, Option, none, some, List, [], ◌∷◌, ltb, if◌then◌else◌,
}
use power_boot.Prelude.Text.{Text}
use power_boot.Console.{black, white, Screen, short, screen_draw}
use power_boot.Console.Port.{
  Field, tx_font, tx_face, tx_mode, tx_size, fg_color, bk_color, GrafPort, Rect, Clip, local,
  Painting, erase_rect, inval_rect, draw_char, draw_grow_icon, QuickDraw,
}

-- The statements of a block that stays in one port.
pub data Statement : Type 0 where
  set assign : Field → ℕ → Statement
  paint : Painting → Statement
  set_clip : (window : ℕ) → Clip → Statement

-- A `long` that was kept in a `short`.
abbrev pub through_short : ℕ → ℕ
through_short n = if ltb (short n) (2 ^ 15) then short n else short n + (2 ^ 32 - 2 ^ 16)

module _ (q : QuickDraw) where
  abbrev pub execute : Statement → q.State → q.State
  execute (Statement.set f v) s = q.set f v s
  execute (Statement.assign f v) s = q.assign f v s
  execute (Statement.paint c) s = q.paint c s
  execute (Statement.set_clip n r) s = q.set_clip n r s

  unfoldable pub block : List Statement → q.State → q.State
  block [] s = s
  block (c ∷ cs) s = block cs (execute c s)

  -- What `console_setup` sets in its port.
  abbrev pub setup_calls : List Statement
  setup_calls =
      Statement.set bk_color (q.color_value black)
      ∷ Statement.set fg_color (q.color_value white)
      ∷ Statement.set tx_font q.k_font_id_monaco
      ∷ Statement.set tx_size 10
      ∷ Statement.set tx_face q.normal
      ∷ []

  -- The height and the width of a character cell in the font of a port.
  abbrev pub cell_height : GrafPort → ℕ
  cell_height p =
      let fi = q.font_info p.font p.size p.face in fi.ascent + fi.descent + fi.leading + 1

  abbrev pub cell_width : GrafPort → ℕ
  cell_width p = q.char_width p.font p.size p.face 32

  -- `initial_window_bounds`. The source insets a second rectangle, `qdR`, and does not use it.
  unfoldable pub initial_window_bounds : GrafPort → Rect → Rect
  initial_window_bounds p screen =
      let inset = q.inset_rect 20 20 screen in
      let top = short (inset.top + 40) in
      record {
        top = top;
        left = inset.left;
        bottom = short (top + cell_height p * 60);
        right = short (inset.left + cell_width p * 120);
      }

  -- `console_setup` behind SetPort, with the port that was saved.
  abbrev pub setup_end : GrafPort → List Statement
  setup_end saved =
      Statement.paint erase_rect
      ∷ Statement.set bk_color (through_short saved.back)
      ∷ Statement.set fg_color (through_short saved.fore)
      ∷ Statement.set tx_font saved.font
      ∷ Statement.set tx_size saved.size
      ∷ Statement.set tx_face saved.face
      ∷ []

  -- The window that `console_setup` makes, and the state that it leaves.
  unfoldable pub console_setup : q.State → ℕ × q.State
  unfolding block initial_window_bounds
  console_setup s =
      let prepared = block setup_calls s in
      let bounds =
        initial_window_bounds (q.port (q.the_port prepared) prepared) (q.screen_bounds prepared) in
      let win = q.window prepared in
      (
        win,
        block (setup_end (q.port (q.the_port s) s)) (q.set_port win (q.new_window bounds prepared)),
      )

  -- `ScreenDraw` up to its loop.
  abbrev pub draw_calls : List Statement
  draw_calls =
      Statement.set tx_font q.k_font_id_monaco
      ∷ Statement.set tx_size 9
      ∷ Statement.set tx_face q.normal
      ∷ Statement.set bk_color (q.color_value black)
      ∷ Statement.set fg_color (q.color_value white)
      ∷ Statement.set tx_mode q.src_or
      ∷ Statement.paint erase_rect
      ∷ []

  -- `ScreenDraw` from its loop up to the grow icon. Of the loop, which `screen_draw` models, the
  -- port keeps the colours that were set last.
  abbrev pub draw_end : GrafPort → Screen → List Statement
  draw_end saved t =
      Statement.set bk_color (q.color_value t.back)
      ∷ Statement.set fg_color (q.color_value t.fore)
      ∷ Statement.paint draw_char
      ∷ Statement.paint inval_rect
      ∷ Statement.set tx_font saved.font
      ∷ Statement.set tx_size saved.size
      ∷ Statement.set tx_face saved.face
      ∷ Statement.assign fg_color (through_short saved.fore)
      ∷ Statement.assign bk_color (through_short saved.back)
      ∷ []

  -- `bottom_right_corner`, of the rectangle of the window.
  abbrev pub corner : Rect → Rect
  corner r = record r {
    top = short (r.bottom + (2 ^ 16 - 15));
    left = short (r.right + (2 ^ 16 - 15));
  }

  -- The end of `ScreenDraw`, with `old` and the rectangle of the window.
  abbrev pub grow_icon : ℕ → Clip → Rect → List Statement
  grow_icon window old r =
      Statement.set_clip window (local (corner r))
      ∷ Statement.paint draw_grow_icon
      ∷ Statement.set_clip window old
      ∷ []

  -- `ScreenDraw`, where the console has a window.
  unfoldable pub screen_draw_port : ℕ → (ℕ → ℕ) → ℕ → ℕ → List Text → q.State → Option q.State
  unfolding block screen_draw
  screen_draw_port window width top left line_buffer s =
      elim (screen_draw width top left line_buffer) [
        | none ↦ none
        | some t ↦
            (let drawn = block (draw_end (q.port (q.the_port s) s) t) (block draw_calls s) in
              some
                (block (grow_icon window (q.clip window drawn) (q.port_rect window drawn)) drawn))
      ]
