-- ===== src/Console/Window.antt =====
-- src/console/console.cpp: `MacMain`, the loop over the events of the window. The Toolbox is a list
-- of what `GetNextEvent` gave, poll by poll, and the result is the list of the calls made. A window
-- is the number of its pointer.
pub mod Loop
use power_boot.Prelude.{
  ℕ, ◌/◌, ◌%◌, ◌^◌, Bool, true, false, Option, none, some, List, [], ◌∷◌, ◌++◌,
}

-- What `FindWindow` found under the mouse, with the window, and what the mouse then did there: the
-- result of `GrowWindow`, and of `TrackGoAway`.
pub data Part : Type 0 where
  in_drag : (event_win : ℕ) → Part
  in_grow : (event_win grow_result : ℕ) → Part
  in_go_away : (event_win : ℕ) → (tracked : Bool) → Part
  elsewhere : Part

-- `EventRecord`, by `what`
pub data Event : Type 0 where
  update_evt : (message : ℕ) → Event
  activate_evt : Event
  mouse_down : Part → Event
  other_evt : Event

-- The calls.
pub data Action : Type 0 where
  init_graf init_fonts init_windows init_menus draw_menu_bar console_setup init_cursor : Action
  get_caret_time system_task get_w_ref_con get_gray_rgn yield exit : Action
  begin_update draw end_update : (window : ℕ) → Action
  find_window : Action
  drag_window track_go_away : (window : ℕ) → Action
  grow_window close_window dispose_ptr : (window : ℕ) → Action
  size_window : (window w h : ℕ) → Action

-- How the loop ends: in `exit`, behind the loop, or not yet.
pub data Ending : Type 0 where
  exited returned running : Ending

unfoldable pub redraw : ℕ → List Action
redraw window = Action.begin_update window ∷ Action.draw window ∷ Action.end_update window ∷ []

-- The inner `switch`, and whether it ends in `exit`.
unfoldable pub on_mouse_down : Part → List Action × Bool
on_mouse_down (Part.in_drag w) = (Action.get_gray_rgn ∷ Action.drag_window w ∷ [], false)
on_mouse_down (Part.in_grow w result) = (
  Action.get_gray_rgn
      ∷ Action.grow_window w
      ∷ Action.size_window w (result % 2 ^ 16) (result / 2 ^ 16)
      ∷ [],
  false,
)
on_mouse_down (Part.in_go_away w true) = (Action.track_go_away w ∷ Action.exit ∷ [], true)
on_mouse_down (Part.in_go_away w false) = (Action.track_go_away w ∷ [], false)
on_mouse_down Part.elsewhere = ([], false)

-- The `switch` over the event. `mouseDown` runs on into `osEvt`, which does nothing.
unfoldable pub on_gui_event : ℕ → Event → List Action × Bool
unfolding redraw on_mouse_down
on_gui_event window (Event.update_evt message) = (redraw message, false)
on_gui_event window Event.activate_evt = (Action.get_w_ref_con ∷ [], false)
on_gui_event window (Event.mouse_down part) =
    (Action.find_window ∷ (on_mouse_down part).0, (on_mouse_down part).1)
on_gui_event window Event.other_evt = ([], false)

abbrev prepend : List Action → List Action × Ending → List Action × Ending
prepend calls (later, ending) = (calls ++ later, ending)

-- The `do` loop from a `GetNextEvent` on; nothing sets `exit_loop`.
unfoldable pub event_loop : ℕ → Bool → List (Option Event) → List Action × Ending
unfolding redraw on_gui_event
event_loop window exit_loop [] = ([], running)
event_loop window exit_loop (none ∷ polls) =
    prepend (Action.system_task ∷ redraw window) (event_loop window exit_loop polls)
event_loop window exit_loop (some event ∷ polls) =
    let later = event_loop window exit_loop polls in
    let handled = on_gui_event window event in
    prepend handled.0 (elim handled.1 [
      | true ↦ ([], exited)
      | false ↦ prepend (Action.yield ∷ []) (elim exit_loop [
        | true ↦ (Action.close_window window ∷ Action.dispose_ptr window ∷ [], returned)
        | false ↦ prepend (Action.system_task ∷ []) later
      ])
    ])

abbrev initial_calls : List Action
initial_calls =
    Action.init_graf ∷ Action.init_fonts ∷ Action.init_windows ∷ Action.init_menus
    ∷ Action.draw_menu_bar ∷ Action.console_setup ∷ Action.init_cursor ∷ []

-- `MacMain`, with the window that `console_setup` makes.
unfoldable pub mac_main : ℕ → List (Option Event) → List Action × Ending
unfolding redraw event_loop
mac_main window polls =
    prepend (initial_calls ++ redraw window ++ Action.get_caret_time ∷ Action.system_task ∷ [])
      (event_loop window false polls)
