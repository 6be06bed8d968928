-- ===== src/Sftp/Taken.antt =====
-- What it takes for the operations that give no value to return in the main thread.
use power_boot.Prelude.{ℕ, ◌≡◌, false}
use power_boot.Prelude.Text.{Text, c_str}
use power_boot.World.{World}
use power_boot.World.Session.{Rc}
use power_boot.World.Calls.{main_thread, LinkType, SshCall, FileAttributes}
use power_boot.Effects.{Env, M, ◌>>◌, skip}
use power_boot.Effects.Keeps.{Pred, Post, Respects, Keeps, Meets-mono, Meets-then_known, Meets-skip}
use power_boot.Sftp.{is_negative, rc_err_handle}
use power_boot.Sftp.Handles.{file_write, file_setstat, file_sync, file_close, dir_close}
use power_boot.Sftp.Files.{
  mkdir, rename, rmdir, setstat, shutdown, symlink, readlink, realpath, unlink,
}
use power_boot.Sftp.Outcome.{rc_err_handle-Meets}
use power_boot.Sftp.Delivery.{put_rc-Keeps}

-- What was asked to be written, and the status that the server gave.
abbrev Taken : Env → SshCall → Type 0
Taken env call = (w : World) × (is_negative (env.ssh_reply w call).rc ≡ false)

-- What is stated of the operations on handles, and of those on paths.
abbrev HandleCalls : Pred → Env → ℕ → ℕ → Text → FileAttributes → World → Type 0
HandleCalls P env fuel handle buf attr w =
    Post P P (λ _ _. Taken env (SshCall.file_write handle buf)) (file_write env fuel handle buf w)
    × Post P P (λ _ _. Taken env (SshCall.file_fsetstat handle attr))
        (file_setstat env fuel handle attr w)
    × Post P P (λ _ _. Taken env (SshCall.file_fsync handle)) (file_sync env fuel handle w)
    × Post P P (λ _ _. Taken env (SshCall.file_close handle)) (file_close env fuel handle w)
    × Post P P (λ _ _. Taken env (SshCall.dir_close handle)) (dir_close env fuel handle w)

abbrev PathCalls : Pred → Env → ℕ → Text → Text → ℕ → FileAttributes → World → Type 0
PathCalls P env fuel path target mode attr w =
    Post P P (λ _ _. Taken env (SshCall.sftp_mkdir (c_str path) mode)) (mkdir env fuel path mode w)
    × Post P P (λ _ _. Taken env (SshCall.sftp_rename (c_str path) (c_str target)))
        (rename env fuel path target w)
    × Post P P (λ _ _. Taken env (SshCall.sftp_rmdir (c_str path))) (rmdir env fuel path w)
    × Post P P (λ _ _. Taken env (SshCall.sftp_setstat (c_str path) attr))
        (setstat env fuel path attr w)
    × Post P P (λ _ _. Taken env SshCall.sftp_shutdown) (shutdown env fuel w)
    × Post P P (λ _ _. Taken env (SshCall.sftp_symlink path target LinkType.symlink))
        (symlink env fuel path target w)
    × Post P P (λ _ _. Taken env (SshCall.sftp_symlink path target LinkType.readlink))
        (readlink env fuel path target w)
    × Post P P (λ _ _. Taken env (SshCall.sftp_symlink path target LinkType.realpath))
        (realpath env fuel path target w)
    × Post P P (λ _ _. Taken env (SshCall.sftp_unlink path)) (unlink env fuel path w)

module _ {P : Pred} {env : Env} (r : Respects P env) (main : env.me ≡ main_thread) where
  call-Taken :
      (fuel : ℕ) (store : Rc → M (Unit {0})) (funcname : Text) (call : SshCall)
      → ((rc : Rc) → Keeps P (store rc))
      → (w : World) → P w.sockets
      → Post P P (λ _ _. Taken env call) ((rc_err_handle env fuel store funcname call >> skip) w)
  call-Taken fuel store funcname call ks w p =
      (Meets-then_known _ _ (rc_err_handle-Meets r fuel store funcname call ks main)
          λ a _ (fine, (w, e)). Meets-mono Meets-skip λ _ _ _. (w, rw (← e) fine)).run
        w p

  -- In the main thread, with a `P` of the table that other threads keep: where one of the
  -- operations on a handle that give no value returns, libssh2 has in some state a reply without
  -- an error to the call of that operation, with all that is to be written, and `P` is kept.
  handle_operations-Taken :
      (fuel handle : ℕ) (buf : Text) (attr : FileAttributes) (w : World)
      → P w.sockets
      → HandleCalls P env fuel handle buf attr w
  unfolding file_write file_setstat file_sync file_close dir_close
  handle_operations-Taken fuel handle buf attr w p = (
    call-Taken fuel _ _ (SshCall.file_write handle buf) (λ _. Meets-skip) w p,
    call-Taken fuel _ _ (SshCall.file_fsetstat handle attr) (λ _. Meets-skip) w p,
    call-Taken fuel _ _ (SshCall.file_fsync handle) (λ _. Meets-skip) w p,
    call-Taken fuel _ _ (SshCall.file_close handle) (λ _. Meets-skip) w p,
    call-Taken fuel _ _ (SshCall.dir_close handle) (λ _. Meets-skip) w p,
  )

  -- In the main thread, with a `P` of the table that other threads keep: where one of the
  -- operations on paths that give no value returns, libssh2 has in some state a reply without an
  -- error to the call of that operation, with its paths in their order, and `P` is kept.
  path_operations-Taken :
      (fuel : ℕ) (path target : Text) (mode : ℕ) (attr : FileAttributes) (w : World)
      → P w.sockets
      → PathCalls P env fuel path target mode attr w
  unfolding mkdir rename rmdir setstat shutdown symlink readlink realpath unlink
  path_operations-Taken fuel path target mode attr w p = (
    call-Taken fuel _ _ (SshCall.sftp_mkdir (c_str path) mode) put_rc-Keeps w p,
    call-Taken fuel _ _ (SshCall.sftp_rename (c_str path) (c_str target)) put_rc-Keeps w p,
    call-Taken fuel _ _ (SshCall.sftp_rmdir (c_str path)) put_rc-Keeps w p,
    call-Taken fuel _ _ (SshCall.sftp_setstat (c_str path) attr) put_rc-Keeps w p,
    call-Taken fuel _ _ SshCall.sftp_shutdown put_rc-Keeps w p,
    call-Taken fuel _ _ (SshCall.sftp_symlink path target LinkType.symlink) put_rc-Keeps w p,
    call-Taken fuel _ _ (SshCall.sftp_symlink path target LinkType.readlink) put_rc-Keeps w p,
    call-Taken fuel _ _ (SshCall.sftp_symlink path target LinkType.realpath) put_rc-Keeps w p,
    call-Taken fuel _ _ (SshCall.sftp_unlink path) put_rc-Keeps w p,
  )
