-- ===== src/Console/Drawing.antt =====
-- What `ScreenDraw` makes of one character.
use power_boot.Prelude.{
  ℕ, ◌+◌, ◌*◌, ◌%◌, ◌^◌, ◌≡◌, refl, sym, ap, ◌∙◌, inl, inr, Bool, true, false, ◌&&◌, ◌||◌,
  Bool-cases, Option, none, some, List, [], ◌∷◌, ◌++◌, append-nil, arith, ◌==◌, if◌then◌else◌,
}
use power_boot.Prelude.Text.{Text}
use power_boot.Console.{white, black, Glyph, Screen, on_escape, on_char, char_step}
use power_boot.Console.Visible.{has_escape, visible, newlines}

abbrev pub text_of : List Glyph → Text
text_of [] = []
text_of (g ∷ gs) = g.char ∷ text_of gs

text_of-append : (gs hs : List Glyph) → text_of (gs ++ hs) ≡ text_of gs ++ text_of hs
text_of-append [] hs = refl
text_of-append (g ∷ gs) hs = ap (λ t. g.char ∷ t) (text_of-append gs hs)

-- Outside of an escape sequence, with the first colour.
pub record IsPlain (s : Screen) : Type 0 where
  pub not_making : s.making_color ≡ false
  pub no_codes : s.color_codes ≡ []
  pub fore : s.fore ≡ white
  pub back : s.back ≡ black
  pub silent : s.printed ≡ []

-- `t` is `s` behind `line`.
pub record Drew (line : Text) (s t : Screen) : Type 0 where
  pub plain : IsPlain t
  pub text : text_of t.drawn ≡ text_of s.drawn ++ visible line
  pub row : t.y % 2 ^ 16 ≡ (s.y + 12 * newlines line) % 2 ^ 16

-- Drawing ends in undefined behaviour where there is an escape character, and nowhere else.
abbrev pub DrewOr : Text → Screen → Option Screen → Type 0
DrewOr line s none = has_escape line ≡ true
DrewOr line s (some t) = (has_escape line ≡ false) × Drew line s t

-- A character that only moves the pen.
moved :
    (c n : ℕ) (s t : Screen)
    → IsPlain s
    → t.making_color ≡ s.making_color
    → t.color_codes ≡ s.color_codes
    → t.fore ≡ s.fore
    → t.back ≡ s.back
    → t.printed ≡ s.printed
    → t.drawn ≡ s.drawn
    → visible (c ∷ []) ≡ []
    → newlines (c ∷ []) ≡ n
    → t.y % 2 ^ 16 ≡ (s.y + 12 * n) % 2 ^ 16
    → Drew (c ∷ []) s t
moved c n s t p em ec ef eb ep ed v nl row = record {
  plain = record {
    not_making = em ∙ p.not_making;
    no_codes = ec ∙ p.no_codes;
    fore = ef ∙ p.fore;
    back = eb ∙ p.back;
    silent = ep ∙ p.silent;
  };
  text = rw (ed, v) (sym (append-nil (text_of s.drawn)));
  row = rw nl row;
}

if_false : {A : Type 0} (b : Bool) (x y : A) → b ≡ false → (if b then x else y) ≡ y
if_false b x y e = rw e

and-false : (a b : Bool) → b ≡ false → (a && b) ≡ false
and-false true b e = e
and-false false b e = refl

on_escape-none : (s : Screen) → s.color_codes ≡ [] → on_escape s ≡ none
unfolding on_escape
on_escape-none s e =
    ap
      (λ (cs : Text). elim cs [
        | [] ↦ none
        | (c ∷ cs) ↦ some (record s { making_color = true; color_codes = cs })
      ])
      e

abbrev glyph : ℕ → Screen → Glyph
glyph c s = record { char = c; x = s.x; y = s.y; color = s.fore }

on_char-draws :
    (c : ℕ) (s : Screen)
    → s.making_color ≡ false
    → on_char c s ≡ record s { drawn = s.drawn ++ glyph c s ∷ [] }
unfolding on_char
on_char-draws c s e = if_false s.making_color _ _ e

drawn :
    (c : ℕ) (s : Screen)
    → IsPlain s
    → visible (c ∷ []) ≡ c ∷ []
    → newlines (c ∷ []) ≡ 0
    → Drew (c ∷ []) s (record s { drawn = s.drawn ++ glyph c s ∷ [] })
drawn c s p v nl = record {
  plain = record {
    not_making = p.not_making;
    no_codes = p.no_codes;
    fore = p.fore;
    back = p.back;
    silent = p.silent;
  };
  text = text_of-append s.drawn (glyph c s ∷ []) ∙ ap (λ t. text_of s.drawn ++ t) (sym v);
  row = rw nl (omega arith);
}

pub step-DrewOr : (left c : ℕ) (s : Screen) → IsPlain s → DrewOr (c ∷ []) s (char_step left c s)
unfolding char_step on_escape on_char
step-DrewOr left c s p = elim (Bool-cases (c == 27)) [
  | inl e ↦ rw (e, on_escape-none s p.no_codes) (ap (λ b. b || false) e)
  | inr e ↦ rw e (elim (Bool-cases (c == b'\n')) [
    | inl n ↦ rw n (
      no_escape e,
      moved c 1 s _ p refl refl refl refl refl refl (rw n refl) (rw n refl) (omega arith),
    )
    | inr n ↦ rw n (elim (Bool-cases (c == b'\t')) [
      | inl t ↦ rw t (
        no_escape e,
        moved c 0 s _ p refl refl refl refl refl refl (rw (n, t) refl) (rw n refl) (omega arith),
      )
      | inr t ↦ rw t (elim (Bool-cases (c == b'\r')) [
        | inl r ↦ rw r (
          no_escape e,
          moved c 0 s _ p refl refl refl refl refl refl (rw (n, t, r) refl) (rw n refl)
              (omega arith),
        )
        | inr r ↦
            rw
              (r, and-false (c == b'm') s.making_color p.not_making, on_char-draws c s p.not_making)
              (no_escape e, drawn c s p (rw (n, t, r) refl) (rw n refl))
      ])
    ])
  ])
]
  where
    no_escape : (c == 27) ≡ false → has_escape (c ∷ []) ≡ false
    no_escape e = ap (λ b. b || false) e
