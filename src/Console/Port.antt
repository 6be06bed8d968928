-- ===== src/Console/Port.antt =====
-- src/console/console.cpp: what `console_setup` and `ScreenDraw` use of QuickDraw. QuickDraw is an
-- interface, with the laws that its manual gives for a port. A `short` or `long` is its bits.
pub mod Calls
pub mod Restored
pub mod Setup
use power_boot.Prelude.{ℕ, ◌+◌, ◌-◌, ◌^◌, ◌≡◌, false, ◌==◌, if◌then◌else◌}
use power_boot.Console.{Color, short}

-- The fields of a `GrafPort` that the console works with.
pub data Field : Type 0 where
  tx_font tx_face tx_mode tx_size fg_color bk_color : Field

pub record GrafPort : Type 0 where
  pub font : ℕ
  pub face : ℕ
  pub mode : ℕ
  pub size : ℕ
  pub fore : ℕ
  pub back : ℕ

abbrev pub put : Field → ℕ → GrafPort → GrafPort
put tx_font v p = record p { font = v }
put tx_face v p = record p { face = v }
put tx_mode v p = record p { mode = v }
put tx_size v p = record p { size = v }
put fg_color v p = record p { fore = v }
put bk_color v p = record p { back = v }

pub record Rect : Type 0 where
  pub top : ℕ
  pub left : ℕ
  pub bottom : ℕ
  pub right : ℕ

pub record FontInfo : Type 0 where
  pub ascent : ℕ
  pub descent : ℕ
  pub leading : ℕ

-- A rectangle in coordinates that begin at its own corner.
abbrev pub at_origin : Rect → Rect
at_origin r = record {
  top = 0;
  left = 0;
  bottom = short (r.bottom + (2 ^ 16 - short r.top));
  right = short (r.right + (2 ^ 16 - short r.left));
}

-- What `clipRgn` of a window points to: a region of before, or the one of a rectangle on the stack.
pub data Clip : Type 0 where
  kept : (handle : ℕ) → Clip
  local : Rect → Clip

-- Calls that paint, and change no field of a port.
pub data Painting : Type 0 where
  erase_rect inval_rect draw_char draw_grow_icon : Painting

-- `set` is `TextFont`, `TextFace`, `TextMode`, `TextSize`, `ForeColor` or `BackColor`, and `assign`
-- an assignment to the field of `*qd.thePort`. `clip` is what `clipRgn` of a window points to, and
-- `set_clip` an assignment to that. `new_window` is what NewWindow changes, given its bounds, and
-- `window` the window that it gives. `font_info` and `char_width` are what GetFontInfo and
-- CharWidth measure in a font of a size and a face, and `screen_bounds` is `qd.screenBits.bounds`.
pub record QuickDraw : Type 1 where
  pub State : Type 0
  pub the_port : State → ℕ
  pub port : ℕ → State → GrafPort
  pub set : Field → ℕ → State → State
  pub assign : Field → ℕ → State → State
  pub paint : Painting → State → State
  pub clip : ℕ → State → Clip
  pub set_clip : ℕ → Clip → State → State
  pub set_port : ℕ → State → State
  pub window : State → ℕ
  pub new_window : Rect → State → State
  pub port_rect : ℕ → State → Rect
  pub screen_bounds : State → Rect
  pub inset_rect : (dh dv : ℕ) → Rect → Rect
  pub font_info : (font size face : ℕ) → FontInfo
  pub char_width : (font size face c : ℕ) → ℕ
  pub color_value : Color → ℕ
  pub k_font_id_monaco : ℕ
  pub normal : ℕ
  pub src_or : ℕ

pub record QuickDrawLaws (q : QuickDraw) : Type 0 where
  pub the_port-set : (f : Field) (v : ℕ) (s : q.State) → q.the_port (q.set f v s) ≡ q.the_port s
  pub the_port-assign :
      (f : Field) (v : ℕ) (s : q.State) → q.the_port (q.assign f v s) ≡ q.the_port s
  pub the_port-set_clip :
      (m : ℕ) (r : Clip) (s : q.State) → q.the_port (q.set_clip m r s) ≡ q.the_port s
  pub the_port-paint : (c : Painting) (s : q.State) → q.the_port (q.paint c s) ≡ q.the_port s
  pub the_port-set_port : (n : ℕ) (s : q.State) → q.the_port (q.set_port n s) ≡ n
  pub port-set :
      (n : ℕ) (f : Field) (v : ℕ) (s : q.State)
      → q.port n (q.set f v s) ≡ (if n == q.the_port s then put f v (q.port n s) else q.port n s)
  pub port-assign :
      (n : ℕ) (f : Field) (v : ℕ) (s : q.State)
      → q.port n (q.assign f v s) ≡ (if n == q.the_port s then put f v (q.port n s) else q.port n s)
  pub port-set_clip : (n m : ℕ) (r : Clip) (s : q.State) → q.port n (q.set_clip m r s) ≡ q.port n s
  pub clip-set : (n : ℕ) (f : Field) (v : ℕ) (s : q.State) → q.clip n (q.set f v s) ≡ q.clip n s
  pub clip-assign :
      (n : ℕ) (f : Field) (v : ℕ) (s : q.State) → q.clip n (q.assign f v s) ≡ q.clip n s
  pub clip-paint : (n : ℕ) (c : Painting) (s : q.State) → q.clip n (q.paint c s) ≡ q.clip n s
  pub clip-set_clip :
      (n m : ℕ) (r : Clip) (s : q.State)
      → q.clip n (q.set_clip m r s) ≡ (if n == m then r else q.clip n s)
  pub port-paint : (n : ℕ) (c : Painting) (s : q.State) → q.port n (q.paint c s) ≡ q.port n s
  pub port-set_port : (n m : ℕ) (s : q.State) → q.port n (q.set_port m s) ≡ q.port n s
  pub port-new_window :
      (n : ℕ) (r : Rect) (s : q.State)
      → (n == q.window s) ≡ false
      → q.port n (q.new_window r s) ≡ q.port n s
  pub port_rect-set :
      (n : ℕ) (f : Field) (v : ℕ) (s : q.State) → q.port_rect n (q.set f v s) ≡ q.port_rect n s
  pub port_rect-assign :
      (n : ℕ) (f : Field) (v : ℕ) (s : q.State) → q.port_rect n (q.assign f v s) ≡ q.port_rect n s
  pub port_rect-set_clip :
      (n m : ℕ) (r : Clip) (s : q.State) → q.port_rect n (q.set_clip m r s) ≡ q.port_rect n s
  pub port_rect-paint :
      (n : ℕ) (c : Painting) (s : q.State) → q.port_rect n (q.paint c s) ≡ q.port_rect n s
  pub port_rect-set_port :
      (n m : ℕ) (s : q.State) → q.port_rect n (q.set_port m s) ≡ q.port_rect n s
  pub port_rect-new_window :
      (r : Rect) (s : q.State) → q.port_rect (q.window s) (q.new_window r s) ≡ at_origin r
