-- ===== src/Sftp/Files.antt =====
-- src/transfer/sftp/file.cpp: the operations of `class SFTP` on paths, of
-- which libssh2 gets the length, or reads them up to their NUL. `FileAttributes` and
-- `VfsAttributes` are what `SFTPAttributes` and `SFTPStatVFS` hold and give out field by field.
use power_boot.Prelude.{ℕ, zero, suc, none, some, ◌++◌, if◌then◌else◌}
use power_boot.Prelude.Text.{Text, codes, c_str}
use power_boot.World.Calls.{FileAttributes, VfsAttributes, OpenType, LinkType, SshCall, SshReply}
use power_boot.Effects.{Env, M, pure, ◌>>=◌, ◌>>◌, skip, get, spinning, ssh_call}
use power_boot.Sftp.{is_again, put_rc, error_text, error_throw, wait, rc_err_handle}

module _ (env : Env) where
  -- RC_ERR_HANDLE in a method of `class SFTP`, which keeps the code in its field `rc`.
  abbrev pub handled : ℕ → Text → SshCall → M SshReply
  handled fuel funcname call = rc_err_handle env fuel put_rc funcname call

  -- The attributes that are passed in are those that come out where libssh2 writes none.
  unfoldable pub lstat : ℕ → Text → FileAttributes → M FileAttributes
  lstat fuel path attr = do
    r ← handled fuel (codes "libssh2_sftp_lstat") (SshCall.sftp_lstat (c_str path) attr)
    pure r.attributes

  unfoldable pub mkdir : ℕ → Text → ℕ → M (Unit {0})
  mkdir fuel path mode =
      handled fuel (codes "libssh2_sftp_mkdir") (SshCall.sftp_mkdir (c_str path) mode) >> skip

  -- The `do` of `openfile` and `opendir`, which report in the same words.
  unfoldable pub open_loop : ℕ → ℕ → SshCall → M ℕ
  open_loop zero waits call = spinning
  open_loop (suc fuel) waits call = do
    r ← ssh_call env call
    elim r.pointer [
      | some handle ↦ pure handle
      | none ↦ (do
        w ← get
        e ← ssh_call env (SshCall.last_errno w.sftp.session)
        if is_again e.rc then wait env waits >> skip else (do
          w ← get
          st ← error_text env w.sftp.rc
          error_throw env (codes "Unable to open directory: " ++ st ++ codes "\n"))
        open_loop fuel waits call)
    ]

  -- A handle of a file or directory: the object is its pointer.
  unfoldable pub openfile : ℕ → Text → ℕ → ℕ → M ℕ
  openfile fuel filename flags mode =
      open_loop fuel fuel (SshCall.sftp_open filename flags mode OpenType.openfile)

  unfoldable pub opendir : ℕ → Text → M ℕ
  opendir fuel path = open_loop fuel fuel (SshCall.sftp_open path 0 0 OpenType.opendir)

  unfoldable pub rename : ℕ → Text → Text → M (Unit {0})
  rename fuel sourcefile destfile =
      handled fuel (codes "libssh2_sftp_rename")
        (SshCall.sftp_rename (c_str sourcefile) (c_str destfile))
      >> skip

  unfoldable pub rmdir : ℕ → Text → M (Unit {0})
  rmdir fuel path =
      handled fuel (codes "libssh2_sftp_rmdir") (SshCall.sftp_rmdir (c_str path)) >> skip

  unfoldable pub setstat : ℕ → Text → FileAttributes → M (Unit {0})
  setstat fuel path attrs =
      handled fuel (codes "libssh2_sftp_setstat") (SshCall.sftp_setstat (c_str path) attrs) >> skip

  unfoldable pub shutdown : ℕ → M (Unit {0})
  shutdown fuel = handled fuel (codes "libssh2_sftp_shutdown") SshCall.sftp_shutdown >> skip

  unfoldable pub stat : ℕ → Text → M FileAttributes
  stat fuel path = do
    r ← handled fuel (codes "libssh2_sftp_stat") (SshCall.sftp_stat (c_str path))
    pure r.attributes

  unfoldable pub statvfs : ℕ → Text → M VfsAttributes
  statvfs fuel path = do
    r ← handled fuel (codes "libssh2_sftp_statvfs") (SshCall.sftp_statvfs path)
    pure r.vfs

  -- `target` is what the link leads to, and in `readlink` and `realpath` a buffer of the call's own
  -- copy: what libssh2 writes there is lost.
  unfoldable pub symlink : ℕ → Text → Text → M (Unit {0})
  symlink fuel path target =
      handled fuel (codes "libssh2_sftp_symlink")
        (SshCall.sftp_symlink path target LinkType.symlink)
      >> skip

  unfoldable pub readlink : ℕ → Text → Text → M (Unit {0})
  readlink fuel path target =
      handled fuel (codes "libssh2_sftp_read_link")
        (SshCall.sftp_symlink path target LinkType.readlink)
      >> skip

  unfoldable pub realpath : ℕ → Text → Text → M (Unit {0})
  realpath fuel path target =
      handled fuel (codes "libssh2_sftp_symlink")
        (SshCall.sftp_symlink path target LinkType.realpath)
      >> skip

  unfoldable pub unlink : ℕ → Text → M (Unit {0})
  unlink fuel filename =
      handled fuel (codes "libssh2_sftp_unlink") (SshCall.sftp_unlink filename) >> skip
