-- ===== src/Sftp/Handles.antt =====
-- src/transfer/sftp/file.cpp: the handles of files and directories.
use power_boot.Prelude.{ℕ, zero, suc, ◌+◌, Option, none, some, [], ◌∷◌, if◌then◌else◌}
use power_boot.Prelude.Text.{Text, codes}
use power_boot.Inet.{u32}
use power_boot.World.Calls.{FileAttributes, VfsAttributes, SshCall, SshReply}
use power_boot.Effects.{Env, M, pure, ◌>>=◌, ◌>>◌, skip, get, ssh_call}
use power_boot.Transfer.{File}
use power_boot.Sftp.{is_zero, rc_err_handle}
use power_boot.Net.{overlay}

abbrev pub or_empty : Option Text → Text
or_empty none = []
or_empty (some s) = s

-- Memory of a size, with whatever bytes it has.
abbrev pub memory : (ℕ → ℕ) → ℕ → Text
memory f zero = []
memory f (suc n) = f 0 ∷ memory (λ i. f (suc i)) n

-- What `next` makes of the reply: the whole buffers, whatever the length of the name. The two stand
-- one behind the other on the stack.
unfoldable pub entry : (ℕ → ℕ) → SshReply → Option File
entry f r =
    if is_zero r.rc
    then none
    else some (record {
      buffer = overlay (memory f 512) (or_empty r.text);
      longentry = overlay (memory (λ i. f (512 + i)) 512) r.longentry;
      attributes = r.attributes;
    })

module _ (env : Env) where
  -- RC_ERR_HANDLE in a handle, whose own `rc` is not read behind it.
  abbrev pub handled : ℕ → Text → SshCall → M SshReply
  handled fuel funcname call = rc_err_handle env fuel (λ _. skip) funcname call

  unfoldable pub file_rewind : ℕ → M (Unit {0})
  file_rewind handle = ssh_call env (SshCall.file_rewind handle) >> skip

  unfoldable pub file_seek : ℕ → ℕ → M (Unit {0})
  file_seek handle offset = ssh_call env (SshCall.file_seek handle (u32 offset)) >> skip

  unfoldable pub file_tell : ℕ → M ℕ
  file_tell handle = do r ← ssh_call env (SshCall.file_tell handle); pure r.position

  unfoldable pub file_stat : ℕ → ℕ → M FileAttributes
  file_stat fuel handle = do
    r ← handled fuel (codes "file/libssh2_sftp_fstat") (SshCall.file_fstat handle)
    pure r.attributes

  -- `malloc` and the sums of pointers take the size in 32 bits.
  unfoldable pub file_read : ℕ → ℕ → M Text
  file_read fuel handle = do
    stat ← file_stat fuel handle
    w ← get
    r ← handled fuel (codes "libssh2_sftp_read") (SshCall.file_read handle (u32 stat.filesize))
    pure (overlay (memory (env.fresh w) (u32 stat.filesize)) (or_empty r.text))

  unfoldable pub file_write : ℕ → ℕ → Text → M (Unit {0})
  file_write fuel handle buf =
      handled fuel (codes "libssh2_sftp_write") (SshCall.file_write handle buf) >> skip

  unfoldable pub file_close : ℕ → ℕ → M (Unit {0})
  file_close fuel handle =
      handled fuel (codes "libssh2_sftp_close") (SshCall.file_close handle) >> skip

  unfoldable pub file_setstat : ℕ → ℕ → FileAttributes → M (Unit {0})
  file_setstat fuel handle attr =
      handled fuel (codes "libssh2_sftp_fsetstat") (SshCall.file_fsetstat handle attr) >> skip

  unfoldable pub file_statvfs : ℕ → ℕ → M VfsAttributes
  file_statvfs fuel handle = do
    r ← handled fuel (codes "libssh2_sftp_fstatvfs") (SshCall.file_fstatvfs handle)
    pure r.vfs

  unfoldable pub file_sync : ℕ → ℕ → M (Unit {0})
  file_sync fuel handle =
      handled fuel (codes "libssh2_sftp_fsync") (SshCall.file_fsync handle) >> skip

  unfoldable pub dir_next : ℕ → ℕ → M (Option File)
  dir_next fuel handle = do
    w ← get
    r ← handled fuel (codes "libssh2_sftp_readdir_ex") (SshCall.dir_read handle 512 512)
    pure (entry (env.fresh w) r)

  unfoldable pub dir_close : ℕ → ℕ → M (Unit {0})
  dir_close fuel handle =
      handled fuel (codes "libssh2_sftp_closedir") (SshCall.dir_close handle) >> skip
