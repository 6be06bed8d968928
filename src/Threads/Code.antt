-- ===== src/Threads/Code.antt =====
-- Every piece of code that a thread of the program runs, under one name.
use power_boot.Prelude.{ℕ, Option}
use power_boot.Prelude.Text.{Text}
use power_boot.World.Sockets.{SocketAddress}
use power_boot.World.Calls.{OtResult, FileAttributes}
use power_boot.Effects.{Env, M, ◌>>◌, skip}
use power_boot.Net
use power_boot.Net.Connect
use power_boot.Net.Notifier
use power_boot.Net.Notifier.{OtEvent}
use power_boot.Net.FdSets.{FdSet}
use power_boot.Sftp.Files
use power_boot.Sftp.Handles
use power_boot.Sftp.Operations.{Operation, perform}
use power_boot.Sftp.Session
use power_boot.Sftp.ReadThread
use power_boot.Transfer.{ConnectionOptions}
use power_boot.Main

-- What a thread runs: the bodies of the threads, the notifier, and the calls of the interfaces.
pub data Code : Type 0 where
  main new_session : Code
  main_func connect end_session : (fuel : ℕ) → Code
  read_thread : (fuel : ℕ) → ConnectionOptions → Code
  connect_thread : (fd : ℕ) → SocketAddress → Code
  notifier : (fuel fd : ℕ) → OtEvent → OtResult → Code
  socket net_connect : ℕ → Code
  recv : (fuel fd nbytes : ℕ) → Code
  send : (fuel fd : ℕ) (buf : Text) → Code
  select : (fuel : ℕ) (readfds writefds : Option FdSet) → Code
  operation : (fuel : ℕ) → Operation → Code
  openfile : (fuel : ℕ) (filename : Text) (flags mode : ℕ) → Code
  opendir stat statvfs : (fuel : ℕ) (path : Text) → Code
  lstat : (fuel : ℕ) (path : Text) → FileAttributes → Code
  file_stat file_read file_statvfs dir_next : (fuel handle : ℕ) → Code
  file_seek : (handle offset : ℕ) → Code
  file_rewind file_tell : (handle : ℕ) → Code

module _ (env : Env) where
  unfoldable pub run_code : Code → M (Unit {0})
  run_code Code.main = Main.main env
  run_code Code.new_session = Session.new_session env
  run_code (Code.main_func fuel) = Main.main_func env fuel
  run_code (Code.connect fuel) = Session.connect env fuel
  run_code (Code.end_session fuel) = Session.end_session env fuel
  run_code (Code.read_thread fuel options) = ReadThread.read_thread_main env fuel options
  run_code (Code.connect_thread fd address) = Connect.connect_thread env fd address
  run_code (Code.notifier fuel fd code res) = Notifier.notifier env fuel fd code res
  run_code (Code.socket type) = Net.socket env type >> skip
  run_code (Code.net_connect fuel) = Net.connect env fuel >> skip
  run_code (Code.recv fuel fd nbytes) = Net.recv env fuel fd nbytes >> skip
  run_code (Code.send fuel fd buf) = Net.send env fuel fd buf >> skip
  run_code (Code.select fuel readfds writefds) = Net.select env fuel readfds writefds >> skip
  run_code (Code.operation fuel op) = perform env fuel op
  run_code (Code.openfile fuel filename flags mode) =
      Files.openfile env fuel filename flags mode >> skip
  run_code (Code.opendir fuel path) = Files.opendir env fuel path >> skip
  run_code (Code.stat fuel path) = Files.stat env fuel path >> skip
  run_code (Code.statvfs fuel path) = Files.statvfs env fuel path >> skip
  run_code (Code.lstat fuel path attr) = Files.lstat env fuel path attr >> skip
  run_code (Code.file_stat fuel handle) = Handles.file_stat env fuel handle >> skip
  run_code (Code.file_read fuel handle) = Handles.file_read env fuel handle >> skip
  run_code (Code.file_statvfs fuel handle) = Handles.file_statvfs env fuel handle >> skip
  run_code (Code.dir_next fuel handle) = Handles.dir_next env fuel handle >> skip
  run_code (Code.file_seek handle offset) = Handles.file_seek env handle offset
  run_code (Code.file_rewind handle) = Handles.file_rewind env handle
  run_code (Code.file_tell handle) = Handles.file_tell env handle >> skip
