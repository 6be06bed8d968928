-- ===== src/Sftp/Exact.antt =====
-- RC_ERR_HANDLE as an equation: the state in which it ends, call by call, where
-- `wait` has no direction.
use power_boot.Prelude.{
  ℕ, suc, ◌<◌, ◌≡◌, refl, ap, ◌∙◌, true, false, some, ◌∷◌, ◌++◌, if◌then◌else◌,
}
use power_boot.Prelude.Text.{Text, codes, show}
use power_boot.Errors.{buffer_255}
use power_boot.World.{World}
use power_boot.World.Session.{Rc, again, failed}
use power_boot.World.Calls.{main_thread, ssh, SshCall, SshReply}
use power_boot.Effects.{
  Env, done, stopped, M, pure, and_then, ◌>>=◌, ◌>>◌, skip, get, dispose_thread,
}
use power_boot.Effects.Steps.{Resumes, bind-done, then-done, ssh_call-done, printf-done}
use power_boot.Sftp.{
  is_again, is_negative, require, error_msg, error_text, error_throw, rc_err_handle, retry,
}
use power_boot.Sftp.Retry.{reply, called, calls, retry-first}

-- libssh2 answers LIBSSH2_ERROR_EAGAIN `k` times, and then another status.
pub record Settles (env : Env) (stored : Rc → World → World) (call : SshCall) (k : ℕ) (w : World)
    : Type 0 where
  pub busy :
      (i : ℕ) → i < k → is_again (reply env stored call (calls env stored call i w)).rc ≡ true
  pub last : is_again (reply env stored call (calls env stored call k w)).rc ≡ false

-- No wait of `SFTP::wait` has a direction.
abbrev pub Undirected : Env → Type 0
Undirected env = (w : World) → env.directions w ≡ (false, false)

-- What is behind a call of `libssh2_session_last_error`, and behind a printed report.
abbrev pub asked : Env → World → World
asked env w = env.interfere (record w { trace = ssh (SshCall.last_error w.sftp.session) ∷ w.trace })

abbrev pub reported : Env → Text → World → World
reported env s w =
    env.interfere
      (record w { stdout = (buffer_255 s ++ codes "\n") ∷ w.stdout; ticks = suc w.ticks })

-- `error_msg` of a failure: the text of libssh2, and its code.
abbrev pub message : Text → ℕ → Text
message st n = st ++ buffer_255 (codes " (" ++ (codes "-" ++ show n) ++ codes ")")

error_text-some :
    (env : Env) (go : Resumes env) (n : ℕ) (st : Text) (w : World)
    → (env.ssh_reply w (SshCall.last_error w.sftp.session)).text ≡ some st
    → error_text env (failed n) w ≡ done (message st n) (asked env w)
unfolding error_text error_msg ◌>>=◌ get require pure
error_text-some env go n st w e =
    rw (ssh_call-done env go (SshCall.last_error w.sftp.session) w, e, require)

error_throw-stopped :
    (env : Env) (go : Resumes env) (s : Text) (w : World)
    → env.me ≡ main_thread
    → error_throw env s w
      ≡ stopped (record (reported env s w) { ended = main_thread ∷ (reported env s w).ended })
unfolding error_throw dispose_thread ◌>>=◌ ◌>>◌
error_throw-stopped env go s w main = rw (printf-done env go _ w, main)

pub then-stopped :
    {A B : Type 0} (m : M A) (n : M B) (w : World) {w' : World}
    → m w ≡ stopped w'
    → (m >> n) w ≡ stopped w'
unfolding ◌>>◌ ◌>>=◌
then-stopped m n w e = ap (λ r. and_then r (λ _. n)) e

module _ (env : Env) (stored : Rc → World → World) (call : SshCall) (store : Rc → M (Unit {0}))
    (storing : (rc : Rc) (w : World) → store rc w ≡ done tt (stored rc w)) (still : Undirected env)
    (go : Resumes env) (funcname : Text) where
  -- The state behind the last call, of `k + 1`.
  abbrev pub finished : ℕ → World → World
  finished k w = called env stored call (calls env stored call k (stored again w))

  pub rc_err_handle-done :
      (k fuel : ℕ) (w : World)
      → k < fuel
      → Settles env stored call k (stored again w)
      → is_negative (reply env stored call (calls env stored call k (stored again w))).rc ≡ false
      → rc_err_handle env fuel store funcname call w
        ≡ done (reply env stored call (calls env stored call k (stored again w))) (finished k w)
  unfolding rc_err_handle pure skip
  rc_err_handle-done k fuel w lt s fine = rw (
    then-done (store again) _ w (storing again w),
    bind-done (retry env fuel fuel store call) _ _ (
        retry-first env stored call store storing still go fuel k fuel (stored again w) lt s.busy
          s.last),
    fine,
    then-done skip _ (finished k w) refl,
  )

  -- What RC_ERR_HANDLE does behind its loop.
  conclude : Rc → SshReply → M SshReply
  conclude rc a =
      (if is_negative rc
        then (error_text env rc >>= λ st.
            error_throw env (codes "[" ++ funcname ++ codes "] " ++ st))
        else skip)
      >> pure a

  -- The end of a thread whose operation failed with the code -n.
  abbrev pub report : Text → ℕ → Text
  report st n = codes "[" ++ funcname ++ codes "] " ++ message st n

  abbrev failure : Text → ℕ → World → World
  failure st n w = record (reported env (report st n) (asked env w)) {
    ended = main_thread ∷ (reported env (report st n) (asked env w)).ended;
  }

  conclude-stopped :
      (n : ℕ) (st : Text) (a : SshReply) (w : World)
      → (env.ssh_reply w (SshCall.last_error w.sftp.session)).text ≡ some st
      → env.me ≡ main_thread
      → conclude (failed n) a w ≡ stopped (failure st n w)
  unfolding conclude
  conclude-stopped n st a w text main = then-stopped _ (pure a) w (
      bind-done (error_text env (failed n)) _ w (error_text-some env go n st w text)
      ∙ error_throw-stopped env go (report st n) (asked env w) main)

  pub rc_err_handle-stopped :
      (k fuel n : ℕ) (st : Text) (w : World)
      → k < fuel
      → Settles env stored call k (stored again w)
      → (reply env stored call (calls env stored call k (stored again w))).rc ≡ failed n
      → (env.ssh_reply (finished k w) (SshCall.last_error (finished k w).sftp.session)).text
        ≡ some st
      → env.me ≡ main_thread
      → rc_err_handle env fuel store funcname call w ≡ stopped (failure st n (finished k w))
  unfolding rc_err_handle conclude
  rc_err_handle-stopped k fuel n st w lt s bad text main =
      let a : SshReply = reply env stored call (calls env stored call k (stored again w)) in
      then-done (store again) _ w (storing again w)
      ∙ bind-done (retry env fuel fuel store call) _ _ (
          retry-first env stored call store storing still go fuel k fuel (stored again w) lt s.busy
            s.last)
      ∙ ap (λ rc. conclude rc a (finished k w)) bad
      ∙ conclude-stopped n st a (finished k w) text main
