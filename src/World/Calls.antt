-- ===== src/World/Calls.antt =====
-- The calls that the program makes of code that is not in the repository, and their replies.
use power_boot.Prelude.{ℕ, Option, Bool}
use power_boot.Prelude.Text.{Text}
use power_boot.Errors.{OsErr}
use power_boot.World.Session.{Rc}
use power_boot.World.Sockets.{SocketAddress}

-- The threads that the program tells apart: that of `main_thread_id`, that of `read_thread_id`,
-- the latest one of `connect`, and any other, such as the one that runs `MacMain`.
pub data Thread : Type 0 where
  main_thread read_thread connect_thread other_thread : Thread

-- kTCPName and kUDPName
pub data Protocol : Type 0 where
  tcp udp : Protocol

-- A result of Open Transport: a count, or a negative error code.
pub data OtResult : Type 0 where
  count : ℕ → OtResult
  error : OsErr → OtResult

pub data OtFlags : Type 0 where
  no_flags more expedited acknowledged partial_data no_receipt timed_out other_flags : OtFlags

pub data OtCall : Type 0 where
  init_open_transport : OtCall
  create_configuration : Protocol → OtCall
  open_endpoint : (cfg : Option ℕ) → OtCall
  use_sync_idle_events set_blocking set_synchronous bind : (endpoint : Option ℕ) → OtCall
  set_non_blocking set_asynchronous : (endpoint : Option ℕ) → OtCall
  install_notifier : (endpoint : Option ℕ) → (socket : ℕ) → OtCall
  connect : (endpoint : Option ℕ) → SocketAddress → OtCall
  rcv : (endpoint : Option ℕ) → (nbytes : ℕ) → OtCall
  snd : (endpoint : Option ℕ) → (bytes : Text) → OtCall
  rcv_connect count_data_bytes rcv_disconnect : (endpoint : Option ℕ) → OtCall
  address_to_name : OtCall

pub record OtReply : Type 0 where
  pub result : OtResult
  pub pointer : Option ℕ
  pub bytes : Text
  pub flags : OtFlags

pub record FileAttributes : Type 0 where
  pub flags : ℕ
  pub filesize : ℕ
  pub uid : ℕ
  pub gid : ℕ
  pub permissions : ℕ
  pub atime : ℕ
  pub mtime : ℕ

pub record VfsAttributes : Type 0 where
  pub f_bsize : ℕ
  pub f_frsize : ℕ
  pub f_blocks : ℕ
  pub f_bfree : ℕ
  pub f_bavail : ℕ
  pub f_files : ℕ
  pub f_ffree : ℕ
  pub f_favail : ℕ
  pub f_fsid : ℕ
  pub f_flag : ℕ
  pub f_namemax : ℕ

-- LIBSSH2_SFTP_OPENFILE and LIBSSH2_SFTP_OPENDIR
pub data OpenType : Type 0 where
  openfile opendir : OpenType

-- LIBSSH2_SFTP_SYMLINK, LIBSSH2_SFTP_READLINK and LIBSSH2_SFTP_REALPATH
pub data LinkType : Type 0 where
  symlink readlink realpath : LinkType

pub data SshCall : Type 0 where
  init session_init exit : SshCall
  set_blocking : (session : Option ℕ) → Bool → SshCall
  last_errno last_error : (session : Option ℕ) → SshCall
  handshake : (session : Option ℕ) → (sock : ℕ) → SshCall
  hostkey_hash sftp_init channel_open : (session : Option ℕ) → SshCall
  userauth_list : (session : Option ℕ) → (username : Text) → SshCall
  userauth_publickey : (username pubkey privkey passphrase : Text) → SshCall
  userauth_password : (username password : Text) → SshCall
  channel_eof : (channel : Option ℕ) → SshCall
  channel_read : (channel : Option ℕ) → (size : ℕ) → SshCall
  session_disconnect session_free : (session : Option ℕ) → SshCall
  sftp_lstat : (path : Text) → FileAttributes → SshCall
  sftp_stat : (path : Text) → SshCall
  sftp_setstat : (path : Text) → FileAttributes → SshCall
  sftp_mkdir : (path : Text) → (mode : ℕ) → SshCall
  sftp_open : (path : Text) → (flags mode : ℕ) → OpenType → SshCall
  sftp_rename : (source target : Text) → SshCall
  sftp_rmdir sftp_unlink sftp_statvfs : (path : Text) → SshCall
  sftp_shutdown : SshCall
  sftp_symlink : (path target : Text) → LinkType → SshCall
  file_rewind file_tell file_close file_fsync file_fstat file_fstatvfs : (handle : ℕ) → SshCall
  file_seek : (handle offset : ℕ) → SshCall
  file_read : (handle size : ℕ) → SshCall
  file_write : (handle : ℕ) → (bytes : Text) → SshCall
  file_fsetstat : (handle : ℕ) → FileAttributes → SshCall
  dir_read : (handle size longsize : ℕ) → SshCall
  dir_close : (handle : ℕ) → SshCall
  sftp_close : (handle : Option ℕ) → SshCall
  socket_close : (sock : ℕ) → SshCall

-- What a call returns and what it writes through the pointers that it is given.
pub record SshReply : Type 0 where
  pub rc : Rc
  pub pointer : Option ℕ
  pub text : Option Text
  pub longentry : Text
  pub attributes : FileAttributes
  pub vfs : VfsAttributes
  pub position : ℕ

pub data Call : Type 0 where
  ot : OtCall → Call
  ssh : SshCall → Call
  new_thread : Thread → Call
