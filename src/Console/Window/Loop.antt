-- ===== src/Console/Window/Loop.antt =====
-- When `MacMain` ends, what it draws, and when other threads run.
use power_boot.Prelude.{
  ℕ, suc, ◌+◌, ◌*◌, ◌/◌, ◌%◌, ◌^◌, ◌≡◌, ◌<◌, refl, ap, Bool, true, false, ◌&&◌, ◌||◌, Option, none,
  some, List, [], ◌∷◌, arith, ◌==◌, ==_iff,
}
use power_boot.Console.Window.{
  Part, Event, Action, Ending, exited, running, redraw, on_mouse_down, on_gui_event, event_loop,
  mac_main,
}

-- A click into the close box that the mouse was let go in.
abbrev closes : Option Event → Bool
closes (some (Event.mouse_down (Part.in_go_away w tracked))) = tracked
closes _ = false

abbrev any_closes : List (Option Event) → Bool
any_closes [] = false
any_closes (poll ∷ polls) = closes poll || any_closes polls

abbrev ending_of : Bool → Ending
ending_of true = exited
ending_of false = running

loop-exits :
    (window : ℕ) (polls : List (Option Event))
    → (event_loop window false polls).1 ≡ ending_of (any_closes polls)
unfolding event_loop on_gui_event on_mouse_down
loop-exits window [] = refl
loop-exits window (none ∷ polls) = loop-exits window polls
loop-exits window (some (Event.update_evt w) ∷ polls) = loop-exits window polls
loop-exits window (some Event.activate_evt ∷ polls) = loop-exits window polls
loop-exits window (some (Event.mouse_down (Part.in_drag w)) ∷ polls) = loop-exits window polls
loop-exits window (some (Event.mouse_down (Part.in_grow w r)) ∷ polls) = loop-exits window polls
loop-exits window (some (Event.mouse_down (Part.in_go_away w true)) ∷ polls) = refl
loop-exits window (some (Event.mouse_down (Part.in_go_away w false)) ∷ polls) =
    loop-exits window polls
loop-exits window (some (Event.mouse_down Part.elsewhere) ∷ polls) = loop-exits window polls
loop-exits window (some Event.other_evt ∷ polls) = loop-exits window polls

-- `MacMain` exits when one of the events is a click into a close box that was tracked to its end,
-- and otherwise it runs on: it never comes to the end of its loop.
pub mac_main-exits :
    (window : ℕ) (polls : List (Option Event))
    → (mac_main window polls).1 ≡ ending_of (any_closes polls)
unfolding mac_main
mac_main-exits window polls = loop-exits window polls

-- The number of events that are handled before the program exits.
abbrev pub handled : List (Option Event) → ℕ
handled [] = 0
handled (none ∷ polls) = handled polls
handled (some event ∷ polls) = elim (closes (some event)) [ true ↦ 0 | false ↦ suc (handled polls) ]

abbrev yields : List Action → ℕ
yields [] = 0
yields (Action.yield ∷ calls) = suc (yields calls)
yields (_ ∷ calls) = yields calls

loop-yields :
    (window : ℕ) (polls : List (Option Event))
    → yields (event_loop window false polls).0 ≡ handled polls
unfolding event_loop on_gui_event on_mouse_down redraw
loop-yields window [] = refl
loop-yields window (none ∷ polls) = loop-yields window polls
loop-yields window (some (Event.update_evt w) ∷ polls) = ap suc (loop-yields window polls)
loop-yields window (some Event.activate_evt ∷ polls) = ap suc (loop-yields window polls)
loop-yields window (some (Event.mouse_down (Part.in_drag w)) ∷ polls) =
    ap suc (loop-yields window polls)
loop-yields window (some (Event.mouse_down (Part.in_grow w r)) ∷ polls) =
    ap suc (loop-yields window polls)
loop-yields window (some (Event.mouse_down (Part.in_go_away w true)) ∷ polls) = refl
loop-yields window (some (Event.mouse_down (Part.in_go_away w false)) ∷ polls) =
    ap suc (loop-yields window polls)
loop-yields window (some (Event.mouse_down Part.elsewhere) ∷ polls) =
    ap suc (loop-yields window polls)
loop-yields window (some Event.other_evt ∷ polls) = ap suc (loop-yields window polls)

-- `MacMain` gives the other threads their turn once for each event that it handles, the one that
-- ends it excepted, and not at all while there is no event.
mac_main-yields :
    (window : ℕ) (polls : List (Option Event)) → yields (mac_main window polls).0 ≡ handled polls
unfolding mac_main redraw
mac_main-yields window polls = loop-yields window polls

-- Between BeginUpdate and EndUpdate there is one window's drawing and nothing else; `under` is the
-- window that is being updated.
abbrev pub brackets : (under : Option ℕ) → List Action → Bool
brackets none [] = true
brackets none (Action.begin_update w ∷ calls) = brackets (some w) calls
brackets none (Action.draw w ∷ calls) = false
brackets none (Action.end_update w ∷ calls) = false
brackets none (_ ∷ calls) = brackets none calls
brackets (some v) (Action.draw w ∷ calls) = (v == w) && brackets (some v) calls
brackets (some v) (Action.end_update w ∷ calls) = (v == w) && brackets none calls
brackets (some v) _ = false

redrawn : (w : ℕ) (b : Bool) → b ≡ true → ((w == w) && ((w == w) && b)) ≡ true
redrawn w b e = let same : (w == w) ≡ true = (==_iff w w).1 refl in rw (same, e) refl

loop-brackets :
    (window : ℕ) (polls : List (Option Event))
    → brackets none (event_loop window false polls).0 ≡ true
unfolding event_loop on_gui_event on_mouse_down redraw
loop-brackets window [] = refl
loop-brackets window (none ∷ polls) = redrawn window _ (loop-brackets window polls)
loop-brackets window (some (Event.update_evt w) ∷ polls) = redrawn w _ (loop-brackets window polls)
loop-brackets window (some Event.activate_evt ∷ polls) = loop-brackets window polls
loop-brackets window (some (Event.mouse_down (Part.in_drag w)) ∷ polls) = loop-brackets window polls
loop-brackets window (some (Event.mouse_down (Part.in_grow w r)) ∷ polls) =
    loop-brackets window polls
loop-brackets window (some (Event.mouse_down (Part.in_go_away w true)) ∷ polls) = refl
loop-brackets window (some (Event.mouse_down (Part.in_go_away w false)) ∷ polls) =
    loop-brackets window polls
loop-brackets window (some (Event.mouse_down Part.elsewhere) ∷ polls) = loop-brackets window polls
loop-brackets window (some Event.other_evt ∷ polls) = loop-brackets window polls

-- Whatever events come, every drawing of a window stands between BeginUpdate and EndUpdate of that
-- window, and no thread yields, no event is handled and no other window is updated in between.
pub mac_main-brackets :
    (window : ℕ) (polls : List (Option Event)) → brackets none (mac_main window polls).0 ≡ true
unfolding mac_main redraw
mac_main-brackets window polls = redrawn window _ (loop-brackets window polls)

-- A result of `GrowWindow` that holds a height and a width of 16 bits each is given to `SizeWindow`
-- as that width and that height.
grow-sizes :
    (window w width height : ℕ)
    → width < 2 ^ 16
    → on_gui_event window (Event.mouse_down (Part.in_grow w (height * 2 ^ 16 + width))) ≡ (
      Action.find_window
          ∷ Action.get_gray_rgn
          ∷ Action.grow_window w
          ∷ Action.size_window w width height
          ∷ [],
      false,
    )
unfolding on_gui_event on_mouse_down
grow-sizes window w width height h =
    let low : (height * 2 ^ 16 + width) % 2 ^ 16 ≡ width = omega arith in
    let high : (height * 2 ^ 16 + width) / 2 ^ 16 ≡ height = omega arith in rw (low, high) refl
