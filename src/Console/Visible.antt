-- ===== src/Console/Visible.antt =====
-- The texts that `ScreenDraw` draws: their escape characters, visible characters and line feeds.
use power_boot.Prelude.{
  ℕ, suc, ◌+◌, ◌≡◌, refl, ap, inl, inr, Bool, true, false, ◌||◌, Bool-cases, [], ◌∷◌, ◌++◌, arith,
  ◌==◌, if◌then◌else◌,
}
use power_boot.Prelude.Text.{Text}

abbrev pub has_escape : Text → Bool
has_escape [] = false
has_escape (c ∷ line) = (c == 27) || has_escape line

-- The characters that are drawn.
abbrev pub visible : Text → Text
visible [] = []
visible (c ∷ line) =
    if (c == b'\n') || (c == b'\t') || (c == b'\r') then visible line else c ∷ visible line

abbrev pub newlines : Text → ℕ
newlines [] = 0
newlines (c ∷ line) = if c == b'\n' then suc (newlines line) else newlines line

pub has_escape-append : (l m : Text) → has_escape (l ++ m) ≡ (has_escape l || has_escape m)
has_escape-append [] m = refl
has_escape-append (c ∷ l) m =
    rw (has_escape-append l m) (or_assoc (c == 27) (has_escape l) (has_escape m))
  where
    or_assoc : (a b c : Bool) → (a || (b || c)) ≡ ((a || b) || c)
    or_assoc true b c = refl
    or_assoc false b c = refl

pub visible-append : (l m : Text) → visible (l ++ m) ≡ visible l ++ visible m
visible-append [] m = refl
visible-append (c ∷ l) m = elim (Bool-cases ((c == b'\n') || (c == b'\t') || (c == b'\r'))) [
  | inl e ↦ rw e (visible-append l m)
  | inr e ↦ rw e (ap (λ t. c ∷ t) (visible-append l m))
]

pub newlines-append : (l m : Text) → newlines (l ++ m) ≡ newlines l + newlines m
newlines-append [] m = omega arith
newlines-append (c ∷ l) m = elim (Bool-cases (c == b'\n')) [
  | inl e ↦ rw e (omega (arith, newlines-append l m))
  | inr e ↦ rw e (newlines-append l m)
]
