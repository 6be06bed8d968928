-- ===== src/Console.antt =====
-- src/console: the window that shows what was printed. `_consolewrite` of printf.cpp, with the
-- buffer of lines as its state, and `ScreenDraw` and `handleColorCode` of console.cpp, with what
-- they draw as their result. A `short` is its 16 bits.
pub mod Buffer
pub mod Draw
pub mod Drawing
pub mod Port
pub mod Window
pub mod Visible
use power_boot.Prelude.{
  ℕ, zero, suc, ◌+◌, ◌-◌, ◌*◌, ◌%◌, ◌^◌, Bool, true, false, not, ◌&&◌, Option, none, some, List, [],
  ◌∷◌, ◌++◌, ◌==◌, leb, length, drop, bit_and, if◌then◌else◌, and_then,
}
use power_boot.Prelude.Text.{Text, codes, is_digit}

-- The `lineBuffer` behind a write, and what `_consolewrite` returns.
unfoldable pub console_write : List Text → Text → List Text × ℕ
console_write line_buffer str =
    let pushed = line_buffer ++ str ∷ [] in
    (if leb 40 (length pushed) then drop 1 pushed else pushed, length str)

-- Writes in a row.
unfoldable pub console_writes : List Text → List Text → List Text
unfolding console_write
console_writes line_buffer [] = line_buffer
console_writes line_buffer (str ∷ strs) = console_writes (console_write line_buffer str).0 strs

abbrev pub short : ℕ → ℕ
short n = n % 2 ^ 16

pub data Color : Type 0 where
  black red green yellow blue magenta cyan white : Color

-- MoveTo(x, y) and DrawChar(c) in a colour
pub record Glyph : Type 0 where
  pub char : ℕ
  pub x : ℕ
  pub y : ℕ
  pub color : Color

-- The local variables of `ScreenDraw`, the colours of the port, and what came out: the characters
-- on the screen in their order, and the lines that were printed.
pub record Screen : Type 0 where
  pub x : ℕ
  pub y : ℕ
  pub making_color : Bool
  pub color_codes : Text
  pub fore : Color
  pub back : Color
  pub drawn : List Glyph
  pub printed : List Text

-- The colours of the codes 30 to 37 and 40 to 47.
abbrev colors : List Color
colors = black ∷ red ∷ green ∷ yellow ∷ blue ∷ magenta ∷ cyan ∷ white ∷ []

unfoldable color_at : ℕ → List Color → Option Color
color_at n [] = none
color_at zero (c ∷ cs) = some c
color_at (suc n) (c ∷ cs) = color_at n cs

abbrev set_fore : Option Color → Screen → Screen
set_fore none s = s
set_fore (some c) s = record s { fore = c }

abbrev set_back : Option Color → Screen → Screen
set_back none s = s
set_back (some c) s = record s { back = c }

unfoldable handle_color_code : ℕ → Screen → Screen
unfolding color_at
handle_color_code code s =
    if leb 40 code
    then set_back (color_at (code - 40) colors) s
    else if leb 30 code
    then set_fore (color_at (code - 30) colors) s
    else s

-- `atoi` of digits
unfoldable atoi : ℕ → Text → ℕ
atoi n [] = n
atoi n (c ∷ s) = atoi (n * 10 + (c - b'0')) s

-- '\e': `erase(begin())` of a text without characters is undefined, and so is the rest.
unfoldable pub on_escape : Screen → Option Screen
on_escape s = elim s.color_codes [
  | [] ↦ none
  | (c ∷ cs) ↦ some (record s { making_color = true; color_codes = cs })
]

-- The 'm' behind a colour code. The `printf` here writes to the buffer over which `ScreenDraw`
-- loops; the loop is modelled over the lines that it began with.
unfoldable on_color : Screen → Screen
unfolding handle_color_code atoi
on_color s =
    handle_color_code (atoi 0 s.color_codes)
      (record s { making_color = false; printed = s.printed ++ (s.color_codes ++ codes "\n") ∷ [] })

-- The `default` of the switch.
unfoldable pub on_char : ℕ → Screen → Screen
on_char c s =
    if s.making_color
    then (if is_digit c then record s { color_codes = s.color_codes ++ c ∷ [] } else s)
    else record s { drawn = s.drawn ++ record { char = c; x = s.x; y = s.y; color = s.fore } ∷ [] }

-- The `switch` over the character, in a rectangle that begins at `left`.
unfoldable pub char_step : ℕ → ℕ → Screen → Option Screen
unfolding on_escape on_color on_char
char_step left c s =
    if c == 27
    then on_escape s
    else if c == b'\n'
    then some (record s { x = short (left + 9); y = short (s.y + 12) })
    else if c == b'\t'
    then some
        (record s { x = short (bit_and (short (s.x + 16) + 8) (short (s.x + 16) + 2 ^ 16 - 7)) })
    else if c == b'\r'
    then some (record s { x = short (left + 9) })
    else if (c == b'm') && s.making_color
    then some (on_color s)
    else some (on_char c s)

-- `x += CharWidth(ch) + 9`, with the index of the character for the character
abbrev pub advance : (ℕ → ℕ) → ℕ → Screen → Screen
advance char_width ch s = record s { x = short (s.x + char_width (ch % 256) + 9) }

-- The `for` over the characters of a line, from the index `ch` on.
unfoldable pub draw_line : (ℕ → ℕ) → ℕ → ℕ → Text → Screen → Option Screen
unfolding char_step
draw_line char_width left ch [] s = some s
draw_line char_width left ch (c ∷ line) s =
    and_then (char_step left c s)
      λ t. draw_line char_width left (suc ch) line (advance char_width ch t)

-- The `for` over the lines.
unfoldable pub draw_lines : (ℕ → ℕ) → ℕ → List Text → Screen → Option Screen
unfolding draw_line
draw_lines char_width left [] s = some s
draw_lines char_width left (line ∷ lines) s =
    and_then (draw_line char_width left 0 line (record s { x = short (left + 9) }))
      λ t. draw_lines char_width left lines t

abbrev pub blank : ℕ → Screen
blank top = record {
  x = 0;
  y = short (top + 9);
  making_color = false;
  color_codes = [];
  fore = white;
  back = black;
  drawn = [];
  printed = [];
}

-- `ScreenDraw` of a rectangle that begins at `top` and `left`; `none` is undefined behaviour.
unfoldable pub screen_draw : (ℕ → ℕ) → ℕ → ℕ → List Text → Option Screen
unfolding draw_lines
screen_draw char_width top left line_buffer = draw_lines char_width left line_buffer (blank top)
