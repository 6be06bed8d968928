-- ===== src/Threads/Stretches.antt =====
-- What a thread does itself between the turns of the others, also where it goes on from a yield.
use power_boot.World.{World}
use power_boot.Effects.{Env}
use power_boot.Threads.{Role, Step}
use power_boot.Threads.Code.{Code}

-- A course of one thread from `w` on: steps of its own, and turns in which the others move.
pub data Course (role : Role) (env : Env) (w : World) : World → Type 0 where
  start : Course role env w w
  stepped : {u v : World} → Course role env w u → Step role u v → Course role env w v
  passed : {u : World} → Course role env w u → Course role env w (env.interfere u)
