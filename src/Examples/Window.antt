-- ===== src/Examples/Window.antt =====
-- The console's window: QuickDraw as a table of ports, and a click into a close box.
use power_boot.Prelude.{
  ℕ, ◌+◌, ◌-◌, ==_iff, suc, ◌≡◌, refl, true, some, List, [], ◌∷◌, arith, ◌==◌, if◌then◌else◌,
  Option, none,
}
use power_boot.Prelude.Text.{codes}
use power_boot.Console.{Color, black, white}
use power_boot.Console.Port.{GrafPort, Clip, kept, Rect, at_origin, put, QuickDraw, QuickDrawLaws}
use power_boot.Console.Port.Calls.{console_setup, screen_draw_port}
use power_boot.Console.Port.Restored.{IsColored, Redrawn, screen_draw_port-Redrawn}
use power_boot.Console.Port.Setup.{SameText, Paged, own_port, console_setup-moves}
use power_boot.Console.Window.{Part, Event, exited, mac_main}
use power_boot.Console.Window.Loop.{brackets, mac_main-exits, mac_main-brackets}

record Desk : Type 0 where
  current : ℕ
  ports : ℕ → GrafPort
  rects : ℕ → Rect
  clips : ℕ → Clip
  windows : ℕ

abbrev new_port : GrafPort
new_port = record { font = 0; face = 0; mode = 1; size = 12; fore = 33; back = 30 }

abbrev value : Color → ℕ
value black = 33
value white = 30
value _ = 205

abbrev write : ℕ → (GrafPort → GrafPort) → Desk → Desk
write m f d = record d { ports = λ n. if n == m then f (d.ports n) else d.ports n }

abbrev screen : Rect
screen = record { top = 0; left = 0; bottom = 480; right = 640 }

abbrev desk_quick_draw : QuickDraw
desk_quick_draw = record {
  State = Desk;
  the_port = λ d. d.current;
  port = λ n d. d.ports n;
  set = λ f v d. write d.current (put f v) d;
  assign = λ f v d. write d.current (put f v) d;
  paint = λ c d. d;
  clip = λ n d. d.clips n;
  set_clip = λ m r d. record d { clips = λ n. if n == m then r else d.clips n };
  set_port = λ n d. record d { current = n };
  window = λ d. suc d.windows;
  new_window = λ r d. record (write (suc d.windows) (λ _. new_port) d) {
    windows = suc d.windows;
    rects = λ n. if n == suc d.windows then at_origin r else d.rects n;
  };
  port_rect = λ n d. d.rects n;
  screen_bounds = λ d. screen;
  inset_rect = λ dh dv r. record {
    top = r.top + dv;
    left = r.left + dh;
    bottom = r.bottom - dv;
    right = r.right - dh;
  };
  font_info = λ font size face. record { ascent = size; descent = 2; leading = 0 };
  char_width = λ font size face c. 6;
  color_value = value;
  k_font_id_monaco = 4;
  normal = 0;
  src_or = 1;
}

desk_laws : QuickDrawLaws desk_quick_draw
desk_laws = record {
  the_port-set = λ f v d. refl;
  the_port-assign = λ f v d. refl;
  the_port-set_clip = λ m r d. refl;
  the_port-paint = λ c d. refl;
  the_port-set_port = λ n d. refl;
  port-set = λ n f v d. refl;
  port-assign = λ n f v d. refl;
  port-set_clip = λ n m r d. refl;
  clip-set = λ n f v d. refl;
  clip-assign = λ n f v d. refl;
  clip-paint = λ n c d. refl;
  clip-set_clip = λ n m r d. refl;
  port-paint = λ n c d. refl;
  port-set_port = λ n m d. refl;
  port-new_window = λ n r d e. rw e refl;
  port_rect-set = λ n f v d. refl;
  port_rect-assign = λ n f v d. refl;
  port_rect-set_clip = λ n m r d. refl;
  port_rect-paint = λ n c d. refl;
  port_rect-set_port = λ n m d. refl;
  port_rect-new_window = λ r d. rw ((==_iff (suc d.windows) (suc d.windows)).1 refl) refl;
}

abbrev desk : Desk
desk = record { current = 0; ports = λ _. new_port; rects = λ _. screen; clips = kept; windows = 0 }

desk-IsColored : IsColored new_port
desk-IsColored = record { fore-lt = omega arith; back-lt = omega arith }

screen_draw_port-Redrawn_example :
    (d : Desk) × ((screen_draw_port desk_quick_draw 1 (λ c. 6) 0 0 (codes "ab\n" ∷ []) desk
        ≡ some d)
      × Redrawn desk_quick_draw desk d)
screen_draw_port-Redrawn_example =
    screen_draw_port-Redrawn desk_laws 1 (λ c. 6) 0 0 (codes "ab\n" ∷ []) desk desk-IsColored refl

console_setup-moves_example :
    ((console_setup desk_quick_draw desk).1.current ≡ (console_setup desk_quick_draw desk).0)
    × (SameText
          ((console_setup desk_quick_draw desk).1.ports (console_setup desk_quick_draw desk).0)
          new_port
        × (SameText ((console_setup desk_quick_draw desk).1.ports 0) (own_port desk_quick_draw)
            × Paged desk_quick_draw (own_port desk_quick_draw) (
                (console_setup desk_quick_draw desk).1.rects
                  (console_setup desk_quick_draw desk).0)))
unfolding console_setup
console_setup-moves_example = console_setup-moves desk_laws desk desk-IsColored refl

abbrev polls : List (Option Event)
polls =
    none
    ∷ some (Event.update_evt 1)
    ∷ none
    ∷ some (Event.mouse_down (Part.in_drag 1))
    ∷ some (Event.mouse_down (Part.in_go_away 1 true))
    ∷ some Event.activate_evt
    ∷ []

mac_main-exits_example : (mac_main 1 polls).1 ≡ exited
mac_main-exits_example = mac_main-exits 1 polls

mac_main-brackets_example : brackets none (mac_main 1 polls).0 ≡ true
mac_main-brackets_example = mac_main-brackets 1 polls
