-- ===== src/Sftp/Reading.antt =====
-- Reading from handles, call by call: what is delivered, and in which state.
use mathlib.Core.Path.{subst}
use power_boot.Prelude.{
  ℕ, ◌≤◌, ◌<◌, ◌≡◌, refl, ap, ◌∙◌, false, some, ◌++◌, length, drop, take-all, sym,
}
use power_boot.Prelude.Text.{Text}
use power_boot.Inet.{u32}
use power_boot.World.{World}
use power_boot.World.Session.{Rc}
use power_boot.World.Calls.{SshCall, SshReply}
use power_boot.Effects.{Env, done, skip, pure, get, ◌>>=◌}
use power_boot.Effects.Steps.{Resumes, bind-done}
use power_boot.Net.{overlay}
use power_boot.Sftp.Delivery.{length-memory}
use power_boot.Sftp.{is_negative, rc_err_handle}
use power_boot.Sftp.Handles.{entry, or_empty, file_stat, file_read, dir_next, memory}
use power_boot.Sftp.Retry.{reply, called, calls}
use power_boot.Sftp.Exact.{Settles, Undirected, rc_err_handle-done}

-- A handle keeps the status to itself.
abbrev pub aside : Rc → World → World
aside rc w = w

-- The reply that settles a call from `w` on, after `k` times LIBSSH2_ERROR_EAGAIN, and the state
-- behind it.
abbrev settled : Env → SshCall → ℕ → World → SshReply
settled env call k w = reply env aside call (calls env aside call k w)

abbrev pub behind : Env → SshCall → ℕ → World → World
behind env call k w = called env aside call (calls env aside call k w)

skip-aside : (rc : Rc) (w : World) → skip w ≡ done tt (aside rc w)
unfolding skip pure
skip-aside rc w = refl

module _ (env : Env) (still : Undirected env) (go : Resumes env) (handle : ℕ) where
  settled-done :
      (call : SshCall) (funcname : Text) (k fuel : ℕ) (w : World)
      → k < fuel
      → Settles env aside call k w
      → is_negative (settled env call k w).rc ≡ false
      → rc_err_handle env fuel (λ _. skip) funcname call w
        ≡ done (settled env call k w) (behind env call k w)
  settled-done call funcname k fuel w lt s fine =
      rc_err_handle-done env aside call (λ _. skip) skip-aside still go funcname k fuel w lt s fine

  -- Where `wait` has no direction, no other thread disposes of this one, and the reading of the
  -- directory settles after `k` times LIBSSH2_ERROR_EAGAIN, without an error, `next` with more fuel
  -- than `k` returns the entry that the last reply has, in the state behind it.
  dir_next-done :
      (k fuel : ℕ) (w : World)
      → k < fuel
      → Settles env aside (SshCall.dir_read handle 512 512) k w
      → is_negative (settled env (SshCall.dir_read handle 512 512) k w).rc ≡ false
      → dir_next env fuel handle w
        ≡ done
            (entry (env.fresh w) (settled env (SshCall.dir_read handle 512 512) k w))
            (behind env (SshCall.dir_read handle 512 512) k w)
  unfolding dir_next pure get ◌>>=◌
  dir_next-done k fuel w lt s fine =
      bind-done (rc_err_handle env fuel (λ _. skip) _ (SshCall.dir_read handle 512 512)) _ w
        (settled-done (SshCall.dir_read handle 512 512) _ k fuel w lt s fine)

  file_stat-done :
      (k fuel : ℕ) (w : World)
      → k < fuel
      → Settles env aside (SshCall.file_fstat handle) k w
      → is_negative (settled env (SshCall.file_fstat handle) k w).rc ≡ false
      → file_stat env fuel handle w
        ≡ done
            (settled env (SshCall.file_fstat handle) k w).attributes
            (behind env (SshCall.file_fstat handle) k w)
  unfolding file_stat pure
  file_stat-done k fuel w lt s fine =
      bind-done (rc_err_handle env fuel (λ _. skip) _ (SshCall.file_fstat handle)) _ w
        (settled-done (SshCall.file_fstat handle) _ k fuel w lt s fine)

  -- The call that `read` makes for a file of `size` bytes, from the state behind its `stat` on.
  module _ (i j fuel : ℕ) (w : World) where
    abbrev size_of : ℕ
    size_of = u32 (settled env (SshCall.file_fstat handle) i w).attributes.filesize

    abbrev sized : World
    sized = behind env (SshCall.file_fstat handle) i w

    -- The memory that `read` takes for the bytes.
    abbrev pub taken : Text
    taken = memory (env.fresh sized) size_of

    -- Where `wait` has no direction, no other thread disposes of this one, and the calls for the
    -- size and for the bytes settle without an error after `i` and `j` times LIBSSH2_ERROR_EAGAIN,
    -- and no more bytes come than the size modulo 2 ^ 32: `read` with more fuel returns these
    -- bytes, and behind them, up to the size, whatever the memory taken for them held there.
    pub file_read-done :
        (bytes : Text)
        → i < fuel
        → j < fuel
        → Settles env aside (SshCall.file_fstat handle) i w
        → is_negative (settled env (SshCall.file_fstat handle) i w).rc ≡ false
        → Settles env aside (SshCall.file_read handle size_of) j sized
        → is_negative (settled env (SshCall.file_read handle size_of) j sized).rc ≡ false
        → (settled env (SshCall.file_read handle size_of) j sized).text ≡ some bytes
        → length bytes ≤ size_of
        → file_read env fuel handle w
          ≡ done
              (bytes ++ drop (length bytes) taken)
              (behind env (SshCall.file_read handle size_of) j sized)
    unfolding file_read pure get overlay ◌>>=◌
    file_read-done bytes hi hj s fine t well e short =
        bind-done (file_stat env fuel handle) _ w (file_stat-done i fuel w hi s fine)
        ∙ bind-done (rc_err_handle env fuel (λ _. skip) _ (SshCall.file_read handle size_of)) _
            sized (settled-done (SshCall.file_read handle size_of) _ j fuel sized hj t well)
        ∙ ap
            (λ o.
              done (overlay taken (or_empty o))
                (behind env (SshCall.file_read handle size_of) j sized))
            e
        ∙ ap
            (λ b.
              done (b ++ drop (length bytes) taken)
                (behind env (SshCall.file_read handle size_of) j sized))
            (take-all (length taken) bytes
              (subst (λ n. length bytes ≤ n) (sym (length-memory (env.fresh sized) size_of)) short))
