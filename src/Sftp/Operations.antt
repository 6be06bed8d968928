-- ===== src/Sftp/Operations.antt =====
-- The operations of the client that give no value, under one name: what each is to ask of libssh2,
-- the label of its errors, and whose field takes the status.
use Prim.Native.String.{String}
use power_boot.Prelude.{ℕ}
use power_boot.Prelude.Text.{Text, c_str}
use power_boot.World.{World}
use power_boot.World.Session.{Rc}
use power_boot.World.Calls.{FileAttributes, SshCall, LinkType}
use power_boot.Effects.{Env, M}
use power_boot.Sftp.Files
use power_boot.Sftp.Handles

pub data Operation : Type 0 where
  mkdir : (path : Text) (mode : ℕ) → Operation
  rename : (source target : Text) → Operation
  rmdir unlink : (path : Text) → Operation
  setstat : (path : Text) → FileAttributes → Operation
  shutdown : Operation
  symlink readlink realpath : (path target : Text) → Operation
  file_write : (handle : ℕ) (buf : Text) → Operation
  file_close file_sync dir_close : (handle : ℕ) → Operation
  file_setstat : (handle : ℕ) → FileAttributes → Operation

unfoldable pub perform : Env → ℕ → Operation → M (Unit {0})
perform env fuel (mkdir path mode) = Files.mkdir env fuel path mode
perform env fuel (rename source target) = Files.rename env fuel source target
perform env fuel (rmdir path) = Files.rmdir env fuel path
perform env fuel (unlink path) = Files.unlink env fuel path
perform env fuel (setstat path attr) = Files.setstat env fuel path attr
perform env fuel shutdown = Files.shutdown env fuel
perform env fuel (symlink path target) = Files.symlink env fuel path target
perform env fuel (readlink path target) = Files.readlink env fuel path target
perform env fuel (realpath path target) = Files.realpath env fuel path target
perform env fuel (file_write handle buf) = Handles.file_write env fuel handle buf
perform env fuel (file_close handle) = Handles.file_close env fuel handle
perform env fuel (file_sync handle) = Handles.file_sync env fuel handle
perform env fuel (dir_close handle) = Handles.dir_close env fuel handle
perform env fuel (file_setstat handle attr) = Handles.file_setstat env fuel handle attr

-- The call that each is to make, to which paths go as C strings where no length is passed.
abbrev pub request : Operation → SshCall
request (mkdir path mode) = SshCall.sftp_mkdir (c_str path) mode
request (rename source target) = SshCall.sftp_rename (c_str source) (c_str target)
request (rmdir path) = SshCall.sftp_rmdir (c_str path)
request (unlink path) = SshCall.sftp_unlink path
request (setstat path attr) = SshCall.sftp_setstat (c_str path) attr
request shutdown = SshCall.sftp_shutdown
request (symlink path target) = SshCall.sftp_symlink path target LinkType.symlink
request (readlink path target) = SshCall.sftp_symlink path target LinkType.readlink
request (realpath path target) = SshCall.sftp_symlink path target LinkType.realpath
request (file_write handle buf) = SshCall.file_write handle buf
request (file_close handle) = SshCall.file_close handle
request (file_sync handle) = SshCall.file_fsync handle
request (dir_close handle) = SshCall.dir_close handle
request (file_setstat handle attr) = SshCall.file_fsetstat handle attr

abbrev pub label : Operation → String
label (mkdir path mode) = "libssh2_sftp_mkdir"
label (rename source target) = "libssh2_sftp_rename"
label (rmdir path) = "libssh2_sftp_rmdir"
label (unlink path) = "libssh2_sftp_unlink"
label (setstat path attr) = "libssh2_sftp_setstat"
label shutdown = "libssh2_sftp_shutdown"
label (symlink path target) = "libssh2_sftp_symlink"
label (readlink path target) = "libssh2_sftp_read_link"
label (realpath path target) = "libssh2_sftp_symlink"
label (file_write handle buf) = "libssh2_sftp_write"
label (file_close handle) = "libssh2_sftp_close"
label (file_sync handle) = "libssh2_sftp_fsync"
label (dir_close handle) = "libssh2_sftp_closedir"
label (file_setstat handle attr) = "libssh2_sftp_fsetstat"

-- The status goes to the field `rc` of the client for an operation on paths; the field of a handle
-- is read by nothing else.
abbrev to_client : Rc → World → World
to_client rc w = record w { sftp = record w.sftp { rc = rc } }

abbrev pub stored_by : Operation → Rc → World → World
stored_by (file_write handle buf) = λ rc w. w
stored_by (file_close handle) = λ rc w. w
stored_by (file_sync handle) = λ rc w. w
stored_by (dir_close handle) = λ rc w. w
stored_by (file_setstat handle attr) = λ rc w. w
stored_by _ = to_client
