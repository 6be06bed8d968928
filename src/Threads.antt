-- ===== src/Threads.antt =====
-- The threads of the program together: the single changes that their code makes to what they share,
-- as steps of one state machine, in any order. What `notifier` does behind its test of `recv_halt`
-- is not among them.
pub mod Rules
pub mod Stages
pub mod Outcomes
pub mod Calls
pub mod Writes
pub mod Sockets
pub mod Client
pub mod Session
pub mod Connecting
pub mod Reading
pub mod Listing
pub mod Lasting
pub mod Kept
pub mod Steps
pub mod Code
pub mod Order
pub mod Program
pub mod Stretches
pub mod Schedule
use power_boot.Prelude.{
  ℕ, suc, List, Bool, true, false, ◌≡◌, ◌⊎◌, Option, none, some, ◌||◌, [], ◌∷◌, length,
}
use power_boot.Prelude.Text.{Text}
use power_boot.World.{World, update, insert}
use power_boot.World.Sockets.{Socket, SocketAddress}
use power_boot.World.Session.{Sftp, Rc, open_state}
use power_boot.World.Calls.{Thread, read_thread, Call, ot, ssh, new_thread, SshCall}
use power_boot.Net.Table.{IsQuiet}

-- What is written to a socket.
pub data Write : Type 0 where
  set_halting set_send_halt : Bool → Write
  clear_recv_halt empty_recv_buf empty_send_buf : Write
  set_snd_call : SocketAddress → Write

abbrev pub write : Write → Socket → Socket
write (set_halting b) s = record s { halting = b }
write (set_send_halt b) s = record s { send_halt = b }
write clear_recv_halt s = record s { recv_halt = false }
write empty_recv_buf s = record s { recv_buf = [] }
write empty_send_buf s = record s { send_buf = [] }
write (set_snd_call a) s = record s { snd_call = some a }

-- What is written to the client.
pub data Assign : Type 0 where
  set_rc : Rc → Assign
  set_sock set_hostaddr set_sin_port : ℕ → Assign
  set_session set_sftp_pointer set_channel : Option ℕ → Assign
  set_userauthlist : Option Text → Assign
  set_open : Assign

abbrev pub assign : Assign → Sftp → Sftp
assign (set_rc c) s = record s { rc = c }
assign (set_sock n) s = record s { sock = n }
assign (set_hostaddr n) s = record s { hostaddr = n }
assign (set_sin_port n) s = record s { sin_port = n }
assign (set_session p) s = record s { session = p }
assign (set_sftp_pointer p) s = record s { sftp_pointer = p }
assign (set_channel p) s = record s { channel = p }
assign (set_userauthlist t) s = record s { userauthlist = t }
assign set_open s = record s { read_thread_state = open_state }

-- What the threads are that move: with the thread for reading among them or without it, and with
-- those that may make any call at any time or only with such as keep to the order of a session; and
-- which calls of libssh2, behind the ones before, may come to an end without an error.
pub record Role : Type 0 where
  pub reads : Bool
  pub free : Bool
  pub accepts : List Call → SshCall → Bool

-- How far a session has come: to the call for it, to that for its thread, to a handshake and an
-- SFTP session without an error, and to the call for the channel.
pub data Stage : Type 0 where
  created spawned shaken ready opened : Stage

-- The stage that a call comes behind, and the calls that make the stages.
abbrev pub needed : Call → Option Stage
needed (ot c) = none
needed (new_thread read_thread) = some created
needed (new_thread t) = none
needed (ssh SshCall.init) = none
needed (ssh SshCall.session_init) = none
needed (ssh SshCall.exit) = none
needed (ssh (SshCall.set_blocking session b)) = none
needed (ssh (SshCall.last_errno session)) = none
needed (ssh (SshCall.last_error session)) = none
needed (ssh (SshCall.session_disconnect session)) = none
needed (ssh (SshCall.session_free session)) = none
needed (ssh SshCall.sftp_shutdown) = none
needed (ssh (SshCall.sftp_close handle)) = none
needed (ssh (SshCall.socket_close sock)) = none
needed (ssh (SshCall.handshake session sock)) = some spawned
needed (ssh (SshCall.hostkey_hash session)) = some shaken
needed (ssh (SshCall.userauth_list session username)) = some shaken
needed (ssh (SshCall.userauth_publickey username pubkey privkey passphrase)) = some shaken
needed (ssh (SshCall.userauth_password username password)) = some shaken
needed (ssh (SshCall.sftp_init session)) = some shaken
needed (ssh (SshCall.channel_open session)) = some ready
needed (ssh _) = some opened

abbrev pub makes : Role → Stage → List Call → Call → Bool
makes role created trace (ssh SshCall.session_init) = true
makes role spawned trace (new_thread read_thread) = true
makes role shaken trace (ssh (SshCall.handshake session sock)) =
    role.accepts trace (SshCall.handshake session sock)
makes role ready trace (ssh (SshCall.sftp_init session)) =
    role.accepts trace (SshCall.sftp_init session)
makes role opened trace (ssh (SshCall.channel_open session)) = true
makes role _ trace _ = false

-- The stage was made by one of the calls.
abbrev pub came : Role → Stage → List Call → Bool
came role stage [] = false
came role stage (c ∷ trace) = makes role stage trace c || came role stage trace

abbrev pub IsBehind : Role → Option Stage → List Call → Type 0
IsBehind role none trace = Unit
IsBehind role (some stage) trace = came role stage trace ≡ true

-- The threads are free, or the stage has come.
abbrev pub Past : Role → Option Stage → World → Type 0
Past role stage w = (role.free ≡ true) ⊎ IsBehind role stage w.trace

-- The thread for reading alone opens the session, and in order only behind its channel.
abbrev pub May : Role → World → Assign → Type 0
May role w set_open = (role.reads ≡ true) × Past role (some opened) w
May role w _ = Unit

-- One change of the shared state by one thread.
pub data Step (role : Role) (w : World) : World → Type 0 where
  yielded : Step role w (record w { ticks = suc w.ticks })
  printed : (s : Text) → Step role w (record w { stdout = s ∷ w.stdout })
  called : (c : Call) → Past role (needed c) w → Step role w (record w { trace = c ∷ w.trace })
  disposed : (t : Thread) → Step role w (record w { ended = t ∷ w.ended })
  finished : (b : Bool) → Step role w (record w { finished = b })
  inserted :
      (s : Socket)
      → IsQuiet s
      → Step role w (record w {
        sockets = insert (length w.sockets) (record s { id = length w.sockets }) w.sockets;
      })
  wrote : (fd : ℕ) (c : Write) → Step role w (record w { sockets = update fd (write c) w.sockets })
  assigned : (a : Assign) → May role w a → Step role w (record w { sftp = assign a w.sftp })

-- The states that steps of threads, in any order, lead to.
pub data Reach (role : Role) (w : World) : World → Type 0 where
  here : Reach role w w
  next : {t u : World} → Reach role w t → Step role t u → Reach role w u
