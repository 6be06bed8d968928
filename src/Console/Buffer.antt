-- ===== src/Console/Buffer.antt =====
-- The buffer of lines keeps the latest writes.
use power_boot.Prelude.{
  suc, ◌-◌, ◌≤◌, ◌≡◌, refl, sym, ap, ◌∙◌, inl, inr, Bool-cases, List, [], ◌∷◌, ◌++◌, append_assoc,
  append-nil, arith, leb, length, length-append, length-drop, drop,
}
use power_boot.Prelude.Text.{Text}
use power_boot.Console.{console_write, console_writes}

-- The last 39 of a list.
abbrev pub latest : List Text → List Text
latest l = drop (length l - 39) l

latest-short : (l : List Text) → length l ≤ 39 → latest l ≡ l
latest-short l h = ap (λ n. drop n l) zeroth
  where
    zeroth : length l - 39 ≡ 0
    zeroth = omega arith

-- Dropping the first of more than 39 lines loses none of the latest.
latest-drop : (l : List Text) → 40 ≤ length l → latest (drop 1 l) ≡ latest l
latest-drop [] h = absurd (omega arith)
latest-drop (x ∷ l) h = ap (λ n. drop n (x ∷ l)) one_more
  where
    one_more : suc (length l - 39) ≡ suc (length l) - 39
    one_more = omega arith

drop_one-append : (l m : List Text) → 1 ≤ length l → drop 1 l ++ m ≡ drop 1 (l ++ m)
drop_one-append [] m h = absurd (omega arith)
drop_one-append (x ∷ l) m h = refl

pushed_out :
    (b : List Text) (s : Text) (strs : List Text)
    → 1 ≤ length (b ++ s ∷ [])
    → drop 1 (b ++ s ∷ []) ++ strs ≡ drop 1 (b ++ s ∷ strs)
pushed_out b s strs h =
    drop_one-append (b ++ s ∷ []) strs h ∙ ap (drop 1) (append_assoc b (s ∷ []) strs)

-- Behind any writes to a buffer of at most 39 lines, the buffer holds the latest 39 of the lines
-- that it had and those that were written, in their order.
pub console_writes-latest :
    (line_buffer strs : List Text)
    → length line_buffer ≤ 39
    → console_writes line_buffer strs ≡ latest (line_buffer ++ strs)
unfolding console_writes console_write
console_writes-latest b [] h = rw (append-nil b) (sym (latest-short b h))
console_writes-latest b (s ∷ strs) h = elim (Bool-cases (leb 40 (length (b ++ s ∷ [])))) [
  | inl e ↦ rw e (
      console_writes-latest (drop 1 (b ++ s ∷ [])) strs
        (ground (arith, length-append b (s ∷ []), length-drop 1 (b ++ s ∷ [])))
      ∙ ap latest (pushed_out b s strs (ground (arith, length-append b (s ∷ []))))
      ∙ latest-drop (b ++ s ∷ strs)
          (ground (arith, length-append b (s ∷ strs), length-append b (s ∷ []))))
  | inr e ↦ rw e (
      console_writes-latest (b ++ s ∷ []) strs (ground (arith, length-append b (s ∷ [])))
      ∙ ap latest (append_assoc b (s ∷ []) strs))
]
