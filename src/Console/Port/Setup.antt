-- ===== src/Console/Port/Setup.antt =====
-- The ports and the window behind `console_setup`.
use mathlib.Core.Path.{subst}
use power_boot.Prelude.{
  ℕ, ◌^◌, ◌+◌, ◌-◌, ◌*◌, ◌≡◌, refl, sym, ap, ◌∙◌, false, List, [], ◌∷◌, arith, ◌==◌,
}
use power_boot.Console.{black, white, short}
use power_boot.Console.Port.{GrafPort, Rect, at_origin, QuickDraw, QuickDrawLaws}
use power_boot.Console.Port.Calls.{
  cell_height, cell_width, initial_window_bounds, Statement, block, setup_calls, setup_end,
  console_setup,
}
use power_boot.Console.Port.Restored.{
  IsColored, puts, the_port-block, block-own, block-other, through_short-small,
}

-- The font, the size, the face and the colours of two ports are the same.
abbrev pub SameText : GrafPort → GrafPort → Type 0
SameText p p' =
    (p.font ≡ p'.font)
    × ((p.size ≡ p'.size) × ((p.face ≡ p'.face) × ((p.fore ≡ p'.fore) × (p.back ≡ p'.back))))

SameText-path : (p p' : GrafPort) → p ≡ p' → SameText p p'
SameText-path p p' e = (
  ap (λ p. p.font) e,
  (ap (λ p. p.size) e, (ap (λ p. p.face) e, (ap (λ p. p.fore) e, ap (λ p. p.back) e))),
)

setup_end-SameText :
    (q : QuickDraw) (own p : GrafPort) → IsColored own → SameText (puts (setup_end q own) p) own
setup_end-SameText q own p colored =
    rw (through_short-small _ colored.fore-lt, through_short-small _ colored.back-lt)
      (refl, (refl, (refl, (refl, refl))))

module _ {q : QuickDraw} (laws : QuickDrawLaws q) where
  port_rect-block :
      (cs : List Statement) (n : ℕ) (s : q.State) → q.port_rect n (block q cs s) ≡ q.port_rect n s
  unfolding block
  port_rect-block [] n s = refl
  port_rect-block (Statement.set f v ∷ cs) n s =
      port_rect-block cs n (q.set f v s) ∙ laws.port_rect-set n f v s
  port_rect-block (Statement.assign f v ∷ cs) n s =
      port_rect-block cs n (q.assign f v s) ∙ laws.port_rect-assign n f v s
  port_rect-block (Statement.set_clip m r ∷ cs) n s =
      port_rect-block cs n (q.set_clip m r s) ∙ laws.port_rect-set_clip n m r s
  port_rect-block (Statement.paint c ∷ cs) n s =
      port_rect-block cs n (q.paint c s) ∙ laws.port_rect-paint n c s

-- The rectangle of a window of 60 lines of 120 character cells, in the font of a port.
abbrev pub Paged : (q : QuickDraw) → GrafPort → Rect → Type 0
Paged q p r = r ≡ record {
  top = 0;
  left = 0;
  bottom = short (60 * cell_height q p);
  right = short (120 * cell_width q p);
}

-- A side of a rectangle, from its coordinates.
side : (a m k : ℕ) → k ≡ m → short (short (a + m) + (2 ^ 16 - short a)) ≡ short k
side a m k e = omega arith

initial_window_bounds-Paged :
    (q : QuickDraw) (p : GrafPort) (screen : Rect)
    → Paged q p (at_origin (initial_window_bounds q p screen))
unfolding initial_window_bounds
initial_window_bounds-Paged q p screen =
    let top = short ((q.inset_rect 20 20 screen).top + 40) in
    let left = (q.inset_rect 20 20 screen).left in
    rw
      (
        side top (cell_height q p * 60) (60 * cell_height q p) (omega arith),
        side left (cell_width q p * 120) (120 * cell_width q p) (omega arith),
      )
      refl

-- The console's own font and colours.
abbrev pub own_port : QuickDraw → GrafPort
own_port q = record {
  font = q.k_font_id_monaco;
  size = 10;
  face = q.normal;
  mode = 0;
  fore = q.color_value white;
  back = q.color_value black;
}

-- `console_setup` leaves its new window as the port, with the font, the size, the face and the
-- colours that the port before it had. That one is left with the console's own: Monaco, 10 points,
-- no style, white on black; and the window, in its own coordinates, is 60 lines high, each with one
-- pixel more than that font needs, and 120 blanks wide, both modulo 2 ^ 16. The colours of the port
-- fit in a `short`, and the window is a new port.
pub console_setup-moves :
    {q : QuickDraw}
    → QuickDrawLaws q
    → (s : q.State) → IsColored (q.port (q.the_port s) s)
    → (q.the_port s == (console_setup q s).0) ≡ false
    → (q.the_port (console_setup q s).1 ≡ (console_setup q s).0)
      × (SameText (q.port (console_setup q s).0 (console_setup q s).1) (q.port (q.the_port s) s)
          × (SameText (q.port (q.the_port s) (console_setup q s).1) (own_port q)
              × Paged q (own_port q) (q.port_rect (console_setup q s).0 (console_setup q s).1)))
unfolding console_setup
console_setup-moves {q} laws s colored fresh =
    let own : GrafPort = q.port (q.the_port s) s in
    let prepared : q.State = block q (setup_calls q) s in
    let bounds : Rect =
      initial_window_bounds q (q.port (q.the_port prepared) prepared) (q.screen_bounds prepared) in
    let win : ℕ = q.window prepared in
    let moved : q.State = q.set_port win (q.new_window bounds prepared) in
    let there : q.the_port moved ≡ win =
      laws.the_port-set_port win (q.new_window bounds prepared) in
    let new_port = block-own laws (setup_end q own) win moved there in
    let prepared_port : q.port (q.the_port prepared) prepared ≡ puts (setup_calls q) own =
      ap (λ n. q.port n prepared) (the_port-block laws (setup_calls q) s)
      ∙ block-own laws (setup_calls q) (q.the_port s) s refl in
    let old_port =
      block-other laws (setup_end q own) (q.the_port s) moved
        (ap (λ m. q.the_port s == m) there ∙ fresh)
      ∙ laws.port-set_port (q.the_port s) win (q.new_window bounds prepared)
      ∙ laws.port-new_window (q.the_port s) bounds prepared fresh
      ∙ block-own laws (setup_calls q) (q.the_port s) s refl in
    let page =
      port_rect-block laws (setup_end q own) win moved
      ∙ laws.port_rect-set_port win win (q.new_window bounds prepared)
      ∙ laws.port_rect-new_window bounds prepared
      ∙ subst (λ p. Paged q p (at_origin bounds)) prepared_port
          (initial_window_bounds-Paged q (q.port (q.the_port prepared) prepared) _) in
    (
      the_port-block laws (setup_end q own) moved ∙ there,
      (
        subst (λ p. SameText p own) (sym new_port)
            (setup_end-SameText q own (q.port win moved) colored),
        (SameText-path _ _ old_port, page),
      ),
    )
