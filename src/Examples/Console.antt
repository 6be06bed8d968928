-- ===== src/Examples/Console.antt =====
-- The console on short texts.
use power_boot.Prelude.{◌≡◌, List, [], ◌∷◌, ◌++◌, arith}
use power_boot.Prelude.Text.{Text, codes}
use power_boot.Console.{console_writes}
use power_boot.Console.Buffer.{latest, console_writes-latest}

abbrev two_lines : List Text
two_lines = codes "recv: 3\n" ∷ codes "Success\n" ∷ []

console_writes-latest_example : console_writes [] two_lines ≡ latest ([] ++ two_lines)
console_writes-latest_example = console_writes-latest [] two_lines (omega arith)
