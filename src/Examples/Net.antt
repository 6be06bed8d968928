-- ===== src/Examples/Net.antt =====
-- One open socket, and foreign code that answers at once.
use power_boot.Prelude.{
  ◌*◌, ℕ, suc, ◌≤◌, ◌<◌, ◌≡◌, refl, true, false, none, some, [], ◌∷◌, length, arith, ◌==◌, ◌||◌,
  ◌++◌, ◌&&◌, not, length-replicate,
}
use power_boot.Prelude.Text.{codes}
use power_boot.Errors.{no_err, xti}
use power_boot.Errors.Xti.{no_data, flow}
use power_boot.World.{World, lookup}
use power_boot.World.Sockets.{new_socket}
use power_boot.World.Session.{Sftp, Rc, ReadThreadCommand, ReadThreadState}
use power_boot.World.Calls.{
  other_thread, OtCall, OtReply, OtResult, count, error, no_flags, SshReply, FileAttributes,
  VfsAttributes,
}
use power_boot.Effects.{Env, thrown, done}
use power_boot.Effects.Keeps.{Post, Respects}
use power_boot.Net.{recv, send, select, socket, connect}
use power_boot.Net.FdSets.Members.{fd_isset-set}
use power_boot.Net.FdSets.{fd_zero, fd_set, fd_isset, fd_clr}
use power_boot.Net.Table.{IsTable}
use power_boot.Net.Transfer.{Answered, Relayed, recv-Answered, send-Relayed}
use power_boot.Net.Invariant.{socket-fresh}
use power_boot.Net.Dialing.{created, disposed, connect-returns}
use power_boot.Effects.Waiting.{turn}
use power_boot.Net.Waiting.{Spins, select-thrown, send-Spins}

abbrev pub no_attributes : FileAttributes
no_attributes = record {
  flags = 0;
  filesize = 0;
  uid = 0;
  gid = 0;
  permissions = 0;
  atime = 0;
  mtime = 0;
}

abbrev no_vfs : VfsAttributes
no_vfs = record {
  f_bsize = 0;
  f_frsize = 0;
  f_blocks = 0;
  f_bfree = 0;
  f_bavail = 0;
  f_files = 0;
  f_ffree = 0;
  f_favail = 0;
  f_fsid = 0;
  f_flag = 0;
  f_namemax = 0;
}

abbrev pub ok_reply : SshReply
ok_reply = record {
  rc = Rc.ok 0;
  pointer = some 1;
  text = some (codes "password");
  longentry = [];
  attributes = no_attributes;
  vfs = no_vfs;
  position = 0;
}

abbrev ot_done : OtResult → OtReply
ot_done r = record { result = r; pointer = some 1; bytes = codes "ab"; flags = no_flags }

-- Reads find no data, writes take everything.
abbrev pub answers : OtCall → OtReply
answers (OtCall.rcv e n) = ot_done (error (xti no_data))
answers (OtCall.snd e buf) = ot_done (count (length buf))
answers c = ot_done (error no_err)

-- Writes meet flow control.
abbrev pub full : OtCall → OtReply
full (OtCall.snd e buf) = ot_done (error (xti flow))
full c = ot_done (error no_err)

abbrev pub calm : (OtCall → OtReply) → Env
calm f = record {
  me = other_thread;
  ot_reply = λ w c. f c;
  ssh_reply = λ w c. ok_reply;
  interfere = λ w. w;
  resumes = λ w. true;
  err_text = λ e. codes "-1";
  out_of_range = codes "unordered_map::at";
  again_text = codes "-37";
  thread_error = λ w. none;
  directions = λ w. (false, false);
  fresh = λ w i. 170;
  size_line = λ size name. some (codes "[KB] " ++ name);
  source_root = codes "/";
}

abbrev new_sftp : Sftp
new_sftp = record {
  rc = Rc.ok 0;
  read_thread_command = ReadThreadCommand.wait;
  read_thread_state = ReadThreadState.uninitialized;
  sock = 0;
  hostaddr = 0;
  sin_port = 0;
  session = some 1;
  sftp_pointer = none;
  sftp_handle = none;
  channel = none;
  userauthlist = none;
}

abbrev pub one_socket : World
one_socket = record {
  sockets = (0, record new_socket { endpoint = some 1 }) ∷ [];
  finished = false;
  sftp = new_sftp;
  stdout = [];
  ended = [];
  trace = [];
  ticks = 0;
}

calm-Respects : (f : OtCall → OtReply) (n : ℕ) → Respects (IsTable n) (calm f)
calm-Respects f n = record { interfere = λ w p. p; resumes = λ w p. refl }

pub one_socket-IsTable : IsTable 0 one_socket.sockets
one_socket-IsTable = record {
  counts = (refl, refl, record { no_halt = refl; no_recv = refl; no_send = refl }, tt);
  enough = omega arith;
}

one_socket-IsTable_one : IsTable 1 one_socket.sockets
one_socket-IsTable_one = record { counts = one_socket-IsTable.counts; enough = omega arith }

recv-Answered_example :
    Post
      (IsTable 1)
      (λ _. ⊥)
      (λ out _. Answered (calm answers) 16 out)
      (recv (calm answers) 1 0 16 one_socket)
recv-Answered_example =
    recv-Answered (calm answers) (calm-Respects answers 1) (omega arith) 0 16 one_socket
      one_socket-IsTable_one

send-Relayed_example :
    Post
      (IsTable 1)
      (λ _. ⊥)
      (λ out _. Relayed (calm answers) (codes "ab") out)
      (send (calm answers) 1 0 (codes "ab") one_socket)
send-Relayed_example =
    send-Relayed (calm answers) (calm-Respects answers 1) (omega arith) 1 (codes "ab") one_socket
      (λ w e. refl) one_socket-IsTable_one

select-thrown_example :
    select (calm answers) 5 (some (fd_set 0 fd_zero)) none one_socket ≡ thrown one_socket
select-thrown_example =
    select-thrown (calm answers) 5 0 none one_socket (omega arith) one_socket-IsTable (omega arith)

socket-fresh_example :
    Post
      (IsTable 1)
      (IsTable 1)
      (λ id t. (1 ≤ id) × IsTable (suc id) t)
      (socket (calm answers) 1 one_socket)
socket-fresh_example =
    socket-fresh (calm answers) 1 one_socket (calm-Respects answers) one_socket-IsTable

-- A flag that an earlier connection has left set.
abbrev dialed : World
dialed = record one_socket { finished = true }

connect-returns_example :
    connect (calm answers) 4 dialed ≡ done 0 (turn (calm answers) (disposed (created dialed)))
connect-returns_example =
    connect-returns (calm answers) (λ w. refl) 0 4 dialed refl (omega arith)
      (λ i lt. absurd (omega arith)) refl

send-Spins_example : Spins (send (calm full) 4 0 (codes "ab") one_socket)
unfolding lookup
send-Spins_example =
    send-Spins (calm full) 0 (record { interfere = λ w p. p; resumes = λ w p. refl })
      (record { interfere = λ w p. p; resumes = λ w p. refl }) (codes "ab") (λ w e. refl) 4
      one_socket refl (_, refl)

fd_isset-set_example :
    (fd_isset 7 (fd_set 40 fd_zero) ≡ (7 == 40) || fd_isset 7 fd_zero)
    × (fd_isset 7 (fd_clr 40 fd_zero) ≡ not (7 == 40) && fd_isset 7 fd_zero)
    × (fd_isset 7 fd_zero ≡ false)
unfolding fd_zero
fd_isset-set_example = fd_isset-set 40 7 fd_zero room
  where
    room : 40 < 32 * length fd_zero
    room = omega (arith, length-replicate {0} {A = ℕ} 32 0)
