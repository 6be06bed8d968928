-- ===== src/Threads/Client.antt =====
-- The client in steps of the shared state: what every step keeps, the operations on files and paths
-- keep.
use power_boot.Prelude.{ℕ, zero, suc, none, some, Option}
use power_boot.Prelude.Text.{Text}
use power_boot.World.{World}
use power_boot.Threads.{Role, Past, needed}
use power_boot.World.Session.{Rc}
use power_boot.World.Calls.{ssh, SshCall, SshReply, FileAttributes}
use power_boot.Effects.{get, Env, M, ◌>>=◌, ◌>>◌, skip}
use power_boot.Sftp.{
  is_again, require, error_throw, read_error_throw, error_msg, error_text, wait, retry,
  rc_err_handle, put_rc,
}
use power_boot.Sftp.Files.{
  open_loop, openfile, opendir, stat, lstat, statvfs, mkdir, rename, rmdir, unlink, setstat,
  shutdown, symlink, readlink, realpath,
}
use power_boot.Sftp.Handles.{
  file_stat, file_read, file_statvfs, dir_next, file_rewind, file_seek, file_tell, file_write,
  file_close, file_setstat, file_sync, dir_close,
}
use power_boot.Sftp.Operations.{Operation, perform}
use power_boot.Threads.Rules.{
  Preserves-get, Rely, Preserves, Preserves-pure, Preserves-bind, Preserves-then, Preserves-skip,
  Preserves-cases, Preserves-option, Preserves-undefined, Preserves-spinning,
}
use power_boot.Threads.Calls.{Preserves-ssh_call, preserving}
use power_boot.Threads.Writes.{rc_put}
use power_boot.Threads.Sockets.{select-Preserves}

Preserves-require : {P : World → Type 0} {A : Type 0} (o : Option A) → Preserves P (require o)
unfolding require
Preserves-require none = Preserves-undefined
Preserves-require (some a) = Preserves-pure a

-- Every call is admitted wherever `P` holds.
abbrev pub Asks : Role → (World → Type 0) → Type 0
Asks role P = (c : SshCall) (w : World) → P w → Past role (needed (ssh c)) w

module _ {role : Role} {P : World → Type 0} {env : Env} (k : Rely role P env) where
  pub Preserves-error_throw : (s : Text) → Preserves P (error_throw env s)
  unfolding error_throw
  Preserves-error_throw s = search preserving

  pub Preserves-read_error_throw : (s : Text) → Preserves P (read_error_throw env s)
  unfolding read_error_throw
  Preserves-read_error_throw s = search preserving

  pub Preserves-error_text : (err : Rc) → Preserves P (error_text env err)
  unfolding error_text error_msg
  Preserves-error_text err = search (preserving, Preserves-require) depth 10

  pub Preserves-wait : (fuel : ℕ) → Preserves P (wait env fuel)
  unfolding wait
  Preserves-wait fuel = search (preserving, select-Preserves)

  -- The operations, where the session has come far enough for them.
  module _ (asks : Asks role P) where
    Preserves-retry :
        (fuel waits : ℕ) (store : Rc → M (Unit {0})) (call : SshCall)
        → ((rc : Rc) → Preserves P (store rc))
        → Preserves P (retry env fuel waits store call)
    unfolding retry
    Preserves-retry zero waits store call ks = Preserves-spinning
    Preserves-retry (suc fuel) waits store call ks =
        Preserves-bind _ _ (Preserves-ssh_call k call (asks call)) λ r.
          Preserves-then _ _ (ks r.rc) (
            Preserves-cases (is_again r.rc)
              (Preserves-then _ _ (Preserves-wait waits) (Preserves-retry fuel waits store call ks))
              (Preserves-pure r))

    Preserves-rc_err_handle :
        (fuel : ℕ) (store : Rc → M (Unit {0})) (funcname : Text) (call : SshCall)
        → ((rc : Rc) → Preserves P (store rc))
        → Preserves P (rc_err_handle env fuel store funcname call)
    unfolding rc_err_handle
    Preserves-rc_err_handle fuel store funcname call ks =
        search (preserving, ks, Preserves-retry, Preserves-error_text, Preserves-error_throw) depth
          10

    on_path :
        {A : Type 0} (fuel : ℕ) (funcname : Text) (call : SshCall) (f : SshReply → M A)
        → ((r : SshReply) → Preserves P (f r))
        → Preserves P (rc_err_handle env fuel put_rc funcname call >>= f)
    on_path fuel funcname call f kf =
        Preserves-bind _ f (Preserves-rc_err_handle fuel put_rc funcname call (rc_put k)) kf

    on_handle :
        {A : Type 0} (fuel : ℕ) (funcname : Text) (call : SshCall) (f : SshReply → M A)
        → ((r : SshReply) → Preserves P (f r))
        → Preserves P (rc_err_handle env fuel (λ _. skip) funcname call >>= f)
    on_handle fuel funcname call f kf =
        Preserves-bind _ f
          (Preserves-rc_err_handle fuel (λ _. skip) funcname call (λ _. Preserves-skip)) kf

    open_loop-Preserves :
        (fuel waits : ℕ) (call : SshCall) → Preserves P (open_loop env fuel waits call)
    unfolding open_loop
    open_loop-Preserves zero waits call = Preserves-spinning
    open_loop-Preserves (suc fuel) waits call =
        Preserves-bind _ _ (Preserves-ssh_call k call (asks call)) λ r.
          Preserves-option r.pointer
            (search
              (
                preserving,
                open_loop-Preserves fuel,
                Preserves-wait,
                Preserves-error_text,
                Preserves-error_throw,
              )
              depth 20)
            (λ handle. Preserves-pure handle)

    pub openfile-Preserves :
        (fuel : ℕ) (filename : Text) (flags mode : ℕ)
        → Preserves P (openfile env fuel filename flags mode)
    unfolding openfile
    openfile-Preserves fuel filename flags mode = open_loop-Preserves fuel fuel _

    pub opendir-Preserves : (fuel : ℕ) (path : Text) → Preserves P (opendir env fuel path)
    unfolding opendir
    opendir-Preserves fuel path = open_loop-Preserves fuel fuel _

    pub stat-Preserves : (fuel : ℕ) (path : Text) → Preserves P (stat env fuel path)
    unfolding stat
    stat-Preserves fuel path = on_path fuel _ _ _ λ r. Preserves-pure _

    pub file_stat-Preserves : (fuel handle : ℕ) → Preserves P (file_stat env fuel handle)
    unfolding file_stat
    file_stat-Preserves fuel handle = on_handle fuel _ _ _ λ r. Preserves-pure _

    pub file_read-Preserves : (fuel handle : ℕ) → Preserves P (file_read env fuel handle)
    unfolding file_read
    file_read-Preserves fuel handle =
        Preserves-bind _ _ (file_stat-Preserves fuel handle)
          λ a. Preserves-bind get _ Preserves-get λ w. on_handle fuel _ _ _ λ r. Preserves-pure _

    pub dir_next-Preserves : (fuel handle : ℕ) → Preserves P (dir_next env fuel handle)
    unfolding dir_next
    dir_next-Preserves fuel handle =
        Preserves-bind get _ Preserves-get λ w. on_handle fuel _ _ _ λ r. Preserves-pure _

    pub perform-Preserves : (fuel : ℕ) (op : Operation) → Preserves P (perform env fuel op)
    unfolding perform mkdir rename rmdir unlink setstat shutdown symlink readlink realpath
        file_write file_close file_sync dir_close file_setstat ◌>>◌
    perform-Preserves fuel (Operation.mkdir path mode) = on_path fuel _ _ _ λ r. Preserves-skip
    perform-Preserves fuel (Operation.rename source target) = on_path fuel _ _ _ λ r. Preserves-skip
    perform-Preserves fuel (Operation.rmdir path) = on_path fuel _ _ _ λ r. Preserves-skip
    perform-Preserves fuel (Operation.unlink path) = on_path fuel _ _ _ λ r. Preserves-skip
    perform-Preserves fuel (Operation.setstat path attr) = on_path fuel _ _ _ λ r. Preserves-skip
    perform-Preserves fuel Operation.shutdown = on_path fuel _ _ _ λ r. Preserves-skip
    perform-Preserves fuel (Operation.symlink path target) = on_path fuel _ _ _ λ r. Preserves-skip
    perform-Preserves fuel (Operation.readlink path target) = on_path fuel _ _ _ λ r. Preserves-skip
    perform-Preserves fuel (Operation.realpath path target) = on_path fuel _ _ _ λ r. Preserves-skip
    perform-Preserves fuel (Operation.file_write handle buf) =
        on_handle fuel _ _ _ λ r. Preserves-skip
    perform-Preserves fuel (Operation.file_close handle) = on_handle fuel _ _ _ λ r. Preserves-skip
    perform-Preserves fuel (Operation.file_sync handle) = on_handle fuel _ _ _ λ r. Preserves-skip
    perform-Preserves fuel (Operation.dir_close handle) = on_handle fuel _ _ _ λ r. Preserves-skip
    perform-Preserves fuel (Operation.file_setstat handle attr) =
        on_handle fuel _ _ _ λ r. Preserves-skip

    pub dir_close-Preserves : (fuel handle : ℕ) → Preserves P (dir_close env fuel handle)
    unfolding dir_close ◌>>◌
    dir_close-Preserves fuel handle = on_handle fuel _ _ _ λ r. Preserves-skip

    pub lstat-Preserves :
        (fuel : ℕ) (path : Text) (attr : FileAttributes) → Preserves P (lstat env fuel path attr)
    unfolding lstat
    lstat-Preserves fuel path attr = on_path fuel _ _ _ λ r. Preserves-pure _

    pub statvfs-Preserves : (fuel : ℕ) (path : Text) → Preserves P (statvfs env fuel path)
    unfolding statvfs
    statvfs-Preserves fuel path = on_path fuel _ _ _ λ r. Preserves-pure _

    pub file_rewind-Preserves : (handle : ℕ) → Preserves P (file_rewind env handle)
    unfolding file_rewind
    file_rewind-Preserves handle = search (preserving, Preserves-ssh_call)

    pub file_seek-Preserves : (handle offset : ℕ) → Preserves P (file_seek env handle offset)
    unfolding file_seek
    file_seek-Preserves handle offset = search (preserving, Preserves-ssh_call)

    pub file_tell-Preserves : (handle : ℕ) → Preserves P (file_tell env handle)
    unfolding file_tell
    file_tell-Preserves handle = search (preserving, Preserves-ssh_call)

    pub file_statvfs-Preserves : (fuel handle : ℕ) → Preserves P (file_statvfs env fuel handle)
    unfolding file_statvfs
    file_statvfs-Preserves fuel handle = on_handle fuel _ _ _ λ r. Preserves-pure _
