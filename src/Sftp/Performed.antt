-- ===== src/Sftp/Performed.antt =====
-- What each operation without a value does, from its first call to its end.
use power_boot.Prelude.{ℕ, ◌<◌, ◌≡◌, refl, ap, ◌∙◌, some, false, ◌++◌, ◌∷◌}
use power_boot.Prelude.Text.{Text, codes}
use power_boot.World.{World}
use power_boot.World.Session.{Rc, again, failed}
use power_boot.World.Calls.{main_thread, SshCall, SshReply}
use power_boot.Effects.{Env, done, stopped, M, ◌>>◌, skip, put_sftp, pure}
use power_boot.Effects.Steps.{Resumes, then-done}
use power_boot.Sftp.{is_negative, put_rc, rc_err_handle}
use power_boot.Sftp.Files.{
  mkdir, rename, rmdir, unlink, setstat, shutdown, symlink, readlink, realpath,
}
use power_boot.Sftp.Handles.{file_write, file_close, file_sync, dir_close, file_setstat}
use power_boot.Sftp.Operations.{Operation, perform, request, label, stored_by}
use power_boot.Sftp.Retry.{reply, called, calls}
use power_boot.Sftp.Exact.{
  Settles, Undirected, message, asked, reported, then-stopped, rc_err_handle-done,
  rc_err_handle-stopped,
}

-- The assignment behind `stored_by`.
abbrev store_of : Operation → Rc → M (Unit {0})
store_of (Operation.file_write handle buf) = λ _. skip
store_of (Operation.file_close handle) = λ _. skip
store_of (Operation.file_sync handle) = λ _. skip
store_of (Operation.dir_close handle) = λ _. skip
store_of (Operation.file_setstat handle attr) = λ _. skip
store_of _ = put_rc

storing : (op : Operation) (rc : Rc) (w : World) → store_of op rc w ≡ done tt (stored_by op rc w)
unfolding skip put_sftp pure
storing (Operation.file_write handle buf) rc w = refl
storing (Operation.file_close handle) rc w = refl
storing (Operation.file_sync handle) rc w = refl
storing (Operation.dir_close handle) rc w = refl
storing (Operation.file_setstat handle attr) rc w = refl
storing _ rc w = refl

perform-handled :
    (env : Env) (fuel : ℕ) (op : Operation)
    → perform env fuel op
      ≡ (rc_err_handle env fuel (store_of op) (codes (label op)) (request op) >> skip)
unfolding perform mkdir rename rmdir unlink setstat shutdown symlink readlink realpath file_write
    file_close file_sync dir_close file_setstat
perform-handled env fuel (Operation.file_write handle buf) = refl
perform-handled env fuel _ = refl

-- The state before the call that settles the operation, what libssh2 replies to it, and the state
-- behind it.
abbrev before_last : Env → Operation → ℕ → World → World
before_last env op k w = calls env (stored_by op) (request op) k (stored_by op again w)

abbrev last_reply : Env → Operation → ℕ → World → SshReply
last_reply env op k w = reply env (stored_by op) (request op) (before_last env op k w)

abbrev pub behind_last : Env → Operation → ℕ → World → World
behind_last env op k w = called env (stored_by op) (request op) (before_last env op k w)

-- The report of a failure with the code -n and the text `st`.
abbrev pub report_of : Operation → Text → ℕ → Text
report_of op st n = codes "[" ++ codes (label op) ++ codes "] " ++ message st n

module _ (env : Env) (op : Operation) (still : Undirected env) (go : Resumes env) (k fuel : ℕ)
    (w : World) (lt : k < fuel)
    (settles : Settles env (stored_by op) (request op) k (stored_by op again w)) where
  -- Where `wait` has no direction, no other thread disposes of this one, and libssh2 answers the
  -- call of the operation with LIBSSH2_ERROR_EAGAIN `k` times and then with a status that is no
  -- error, the operation with more fuel than `k` returns behind `k + 1` such calls in a row, with
  -- the statuses assigned.
  pub perform-done :
      is_negative (last_reply env op k w).rc ≡ false
      → perform env fuel op w ≡ done tt (behind_last env op k w)
  unfolding skip pure
  perform-done fine =
      ap (λ m. m w) (perform-handled env fuel op)
      ∙ then-done (rc_err_handle env fuel (store_of op) (codes (label op)) (request op)) skip w (
          rc_err_handle-done env (stored_by op) (request op) (store_of op) (storing op) still go
            (codes (label op)) k fuel w lt settles fine)

  -- Where libssh2, under the same conditions, answers with the error -n at last and gives the text
  -- `st` for it, the operation in the main thread asks for that text, prints the label of the
  -- operation, the text and the code in a line of at most 255 bytes, and disposes of the thread.
  pub perform-stopped :
      (n : ℕ) (st : Text)
      → (last_reply env op k w).rc ≡ failed n
      → (env.ssh_reply
          (behind_last env op k w)
          (SshCall.last_error (behind_last env op k w).sftp.session)).text
        ≡ some st
      → env.me ≡ main_thread
      → let after = reported env (report_of op st n) (asked env (behind_last env op k w)) in
        perform env fuel op w ≡ stopped (record after { ended = main_thread ∷ after.ended })
  perform-stopped n st bad text main =
      ap (λ m. m w) (perform-handled env fuel op)
      ∙ then-stopped (rc_err_handle env fuel (store_of op) (codes (label op)) (request op)) skip w (
          rc_err_handle-stopped env (stored_by op) (request op) (store_of op) (storing op) still go
            (codes (label op)) k fuel n st w lt settles bad text main)
