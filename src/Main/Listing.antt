-- ===== src/Main/Listing.antt =====
-- `main_func` and the exceptions of its `try` block.
use power_boot.Prelude.Text.{Text}
use power_boot.World.{World}
use power_boot.Effects.{Run, thrown}

-- No exception leaves the code.
abbrev pub NotThrown : {A : Type 0} → Run A → Type 0
NotThrown (thrown w) = ⊥
NotThrown _ = Unit
