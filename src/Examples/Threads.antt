-- ===== src/Examples/Threads.antt =====
-- The threads of the program together: a notifier and the reading thread run whenever another
-- thread yields.
use mathlib.Core.Path.{subst}
use power_boot.Threads.Rules.{Truthful}
use power_boot.Sftp.{is_zero}
use power_boot.World.Session.{Rc}
use power_boot.World.Calls.{Call, SshCall, SshReply}
use power_boot.Examples.Net.{ok_reply}
use power_boot.Prelude.{
  ℕ, List, Option, ◌≡◌, leb, length, refl, inl, inr, Bool, Bool-cases, if◌then◌else◌, true, false,
}
use power_boot.World.{World}
use power_boot.World.Calls.{count}
use power_boot.Effects.{Env}
use power_boot.Effects.Steps.{left_by}
use power_boot.Net.Notifier.{t_data, t_connect}
use power_boot.Net.Table.{IsTable}
use power_boot.Net.Waiting.{Spins}
use power_boot.Sftp.Session.{connect}
use power_boot.Threads.{Reach, here, came, spawned}
use power_boot.Threads.Order.{InOrder}
use power_boot.Threads.Code.{Code, run_code}
use power_boot.Threads.Lasting.{Lasts}
use power_boot.Threads.Program.{run_code-Reach}
use power_boot.Threads.Schedule.{
  Turn, idle, ran, freely, in_order, run_code-InOrder, run_code-Lasts, turns-OthersStep,
  connect-unserved,
}
use power_boot.Examples.Net.{one_socket, one_socket-IsTable}
use power_boot.Examples.Sftp.{in_main, in_read, options}

abbrev arrival : Code
arrival = Code.notifier 1 0 t_data (count 0)

abbrev reading : Code
reading = Code.read_thread 2 options

-- A thread that does not go on from its first yield.
abbrev cut_off : Env
cut_off = record in_read { resumes = λ w. false }

-- Whenever the main thread yields, data arrives, of which the report is cut off; with the reading
-- thread, that runs too.
abbrev crowded : (reads : Bool) → Env
crowded true = record in_main {
  interfere = λ w. left_by (run_code in_read reading (left_by (run_code cut_off arrival w)));
}
crowded false = record in_main { interfere = λ w. left_by (run_code cut_off arrival w) }

crowded_turns : (reads : Bool) (v : World) → Turn (freely reads) v ((crowded reads).interfere v)
crowded_turns true v =
    ran (ran idle cut_off (λ u. idle) (inl refl) arrival tt (inl refl)) in_read (λ u. idle)
      (inl refl) reading (refl, inl refl) (inl refl)
crowded_turns false v = ran idle cut_off (λ u. idle) (inl refl) arrival tt (inl refl)

run_code-Lasts_example :
    Lasts one_socket (left_by (run_code (crowded true) (Code.main_func 3) one_socket))
    × IsTable 1 (left_by (run_code (crowded true) (Code.main_func 3) one_socket)).sockets
run_code-Lasts_example =
    run_code-Lasts {reads = true} (crowded true) (Code.main_func 3) one_socket
      (turns-OthersStep (inl refl) (crowded_turns true)) tt one_socket-IsTable

run_code-Reach_example :
    Reach (freely true) one_socket (left_by (run_code in_read reading one_socket))
run_code-Reach_example =
    run_code-Reach (record { moves = λ w is fair. here; truthful = inl refl }) reading one_socket
      (refl, inl refl) (inl refl) one_socket-IsTable (inl refl)

connect-unserved_example : Spins (connect (crowded false) 9 one_socket)
connect-unserved_example =
    connect-unserved (crowded false) 9 one_socket (crowded_turns false) (λ w. refl)
      one_socket-IsTable refl

-- libssh2 is busy with the handshake until twelve calls were made.
abbrev slow_reply : World → SshCall → SshReply
slow_reply w (SshCall.handshake session sock) =
    if leb 12 (length w.trace) then ok_reply else record ok_reply { rc = Rc.again }
slow_reply w c = ok_reply

abbrev accepted : List Call → SshCall → Bool
accepted trace (SshCall.handshake session sock) = leb 12 (length trace)
accepted trace c = true

accepted-handshake :
    (w : World) (session : Option ℕ) (sock : ℕ)
    → is_zero (slow_reply w (SshCall.handshake session sock)).rc ≡ true
    → accepted w.trace (SshCall.handshake session sock) ≡ true
accepted-handshake w session sock e = elim (Bool-cases (leb 12 (length w.trace))) [
  | inl late ↦ late
  | inr early ↦ absurd (
      cc (
        subst (λ b. is_zero (if b then ok_reply else record ok_reply { rc = Rc.again }).rc ≡ true)
          early e))
]

abbrev slow_read : Env
slow_read = record in_read { ssh_reply = slow_reply }

slow_read-Truthful : Truthful (in_order accepted) slow_read
slow_read-Truthful = record { handshakes = accepted-handshake; sessions = λ w session p e. refl }

-- The reading thread, to which the notifier reports its connection whenever it yields.
abbrev connection : Code
connection = Code.notifier 1 1 t_connect (count 0)

abbrev connected : Env
connected = record slow_read { interfere = λ w. left_by (run_code slow_read connection w) }

connected-Truthful : Truthful (in_order accepted) connected
connected-Truthful = record { handshakes = accepted-handshake; sessions = λ w session p e. refl }

abbrev session : World → World
session w = left_by (run_code connected (Code.read_thread 40 options) w)

-- Whenever the main thread yields, the reading thread runs once it was started.
abbrev started : World → World
started w = if came (in_order accepted) spawned w.trace then session w else w

abbrev ordered : Env
ordered = record in_main { ssh_reply = slow_reply; interfere = started }

ordered-Truthful : Truthful (in_order accepted) ordered
ordered-Truthful = record { handshakes = accepted-handshake; sessions = λ w session p e. refl }

connected-Turn : (v : World) → Turn (in_order accepted) v (connected.interfere v)
connected-Turn v = ran idle slow_read (λ u. idle) (inr slow_read-Truthful) connection tt (inr tt)

started-Turn : (v : World) → Turn (in_order accepted) v (started v)
started-Turn v = elim (Bool-cases (came (in_order accepted) spawned v.trace)) [
  | inl e ↦ rw e (
      ran idle connected connected-Turn (inr connected-Truthful) (Code.read_thread 40 options)
        (refl, inr refl) (inr e))
  | inr e ↦ rw e idle
]

abbrev listed : World
listed = left_by (run_code ordered (Code.main_func 3) one_socket)

run_code-InOrder_example : InOrder (in_order accepted) listed
run_code-InOrder_example =
    run_code-InOrder ordered accepted (Code.main_func 3) one_socket
      (turns-OthersStep (inr ordered-Truthful) started-Turn) tt (inr tt) one_socket-IsTable
      (record { calls = tt; opens = λ o. absurd (cc o) })
