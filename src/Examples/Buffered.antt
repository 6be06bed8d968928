-- ===== src/Examples/Buffered.antt =====
-- A reader of a socket in which the notifier has left bytes.
use power_boot.Prelude.{◌≡◌, refl, some, [], ◌∷◌, arith}
use power_boot.Prelude.Text.{codes}
use power_boot.World.{World, lookup}
use power_boot.World.Sockets.{Socket, new_socket}
use power_boot.Effects.{done}
use power_boot.Net.{recv}
use power_boot.Net.Buffered.{Holds, delivered, drained, recv-drained}
use power_boot.Examples.Net.{answers, calm, one_socket}

abbrev full_socket : Socket
full_socket = record new_socket { endpoint = some 1; recv_buf = codes "ab" ∷ codes "c" ∷ [] }

abbrev full_world : World
full_world = record one_socket { sockets = (0, full_socket) ∷ [] }

there : Holds 0 full_socket full_world
unfolding lookup
there = refl

recv-drained_example :
    (w' : World) × ((recv (calm answers) 1 0 4 full_world ≡ done (delivered 4 (codes "abc")) w')
      × Holds 0 (drained full_socket) w')
recv-drained_example =
    recv-drained (calm answers) 0 0 4 full_world full_socket
      (record { same = λ w. refl; resumes = λ w. refl }) there refl refl (omega arith)
