-- ===== src/Sftp.antt =====
-- src/transfer/sftp: the SFTP client over libssh2, in the build for Classic Mac OS. The error
-- reports of console/error.cpp, `wait` of connection.cpp, and RC_ERR_HANDLE of sftp.hpp. Every loop
-- takes the fuel of its thread. The calls of libssh2 leave out the session's `sftp_pointer`, of
-- which there is one.
pub mod Files
pub mod Handles
pub mod Session
pub mod Protocol
pub mod ReadThread
pub mod Opening
pub mod Ending
pub mod Serving
pub mod Meeting
pub mod Outcome
pub mod Delivery
pub mod Taken
pub mod Thread
pub mod Lifetime
pub mod Retry
pub mod Operations
pub mod Exact
pub mod Performed
pub mod Reading
pub mod Server
use power_boot.Prelude.{
  ℕ, zero, suc, Bool, true, false, Option, none, some, List, [], ◌∷◌, ◌++◌, ◌==◌, if◌then◌else◌,
}
use power_boot.Prelude.Text.{Text, codes, show}
use power_boot.Errors.{buffer_255}
use power_boot.World.{World}
use power_boot.World.Session.{Rc, ok, again, failed, Sftp}
use power_boot.World.Calls.{main_thread, read_thread, SshCall, SshReply}
use power_boot.Effects.{
  Env, M, pure, ◌>>=◌, ◌>>◌, skip, get, put_sftp, spinning, undefined, yield, ssh_call, printf,
  dispose_thread,
}
use power_boot.Net.{select}
use power_boot.Net.FdSets.{fd_zero, fd_set}

-- `rc == LIBSSH2_ERROR_EAGAIN`, `rc < 0` and `rc == 0`
abbrev pub is_again : Rc → Bool
is_again again = true
is_again _ = false

abbrev pub is_negative : Rc → Bool
is_negative (ok n) = false
is_negative again = true
is_negative (failed n) = true

abbrev pub is_zero : Rc → Bool
is_zero (ok n) = n == 0
is_zero _ = false

-- `SFTP::error_msg` gives no text for the code 1.
abbrev pub is_one : Rc → Bool
is_one (ok n) = n == 1
is_one _ = false

-- `%d` of a status code
abbrev rc_text : Env → Rc → Text
rc_text env (ok n) = show n
rc_text env again = env.again_text
rc_text env (failed n) = codes "-" ++ show n

-- The text that a pointer leads to, or an access that C leaves undefined.
unfoldable pub require : {A : Type 0} → Option A → M A
require none = undefined
require (some a) = pure a

-- A field of the object that holds the status code of a call.
abbrev pub put_rc : Rc → M (Unit {0})
put_rc rc = put_sftp (λ s. record s { rc = rc })

-- The `what()` of the exception that `formatted_error` returns; nothing calls it.
unfoldable formatted_error : Text → Text
formatted_error s = buffer_255 s

module _ (env : Env) where
  -- `error_throw` and `read_error_throw` on a formatted text
  unfoldable pub error_throw : Text → M (Unit {0})
  error_throw s = do
    printf env (buffer_255 s ++ codes "\n")
    dispose_thread env main_thread
    yield env

  unfoldable pub read_error_throw : Text → M (Unit {0})
  read_error_throw s = do
    printf env (buffer_255 s ++ codes "\n")
    dispose_thread env read_thread
    yield env

  -- `SFTP::error_msg`; nothing writes to the allocated text where libssh2 gives none.
  unfoldable pub error_msg : Rc → M (Option Text)
  error_msg err = if is_one err then pure none else (do
    w ← get
    r ← ssh_call env (SshCall.last_error w.sftp.session)
    st ← require r.text
    pure (some (st ++ buffer_255 (codes " (" ++ rc_text env err ++ codes ")"))))

  -- `error_msg(err)->c_str()`
  unfoldable pub error_text : Rc → M Text
  error_text err = error_msg err >>= require

  -- The statement that sets `dir` is a comment: it has whatever bits it has.
  unfoldable pub wait : ℕ → M ℕ
  wait fuel = do
    w ← get
    let fd = some (fd_set w.sftp.sock fd_zero)
    let (inbound, outbound) = env.directions w
    select env fuel (if inbound then fd else none) (if outbound then fd else none)

  -- The loop of RC_ERR_HANDLE: `store` is the assignment to `rc` of the object at hand.
  unfoldable pub retry : ℕ → ℕ → (Rc → M (Unit {0})) → SshCall → M SshReply
  retry zero waits store call = spinning
  retry (suc fuel) waits store call = do
    r ← ssh_call env call
    store r.rc
    elim (is_again r.rc) [ true ↦ wait waits >> retry fuel waits store call | false ↦ pure r ]

  -- RC_ERR_HANDLE(funcname, th, cmd): the reply of the call that ends the loop.
  unfoldable pub rc_err_handle : ℕ → (Rc → M (Unit {0})) → Text → SshCall → M SshReply
  rc_err_handle fuel store funcname call = do
    store again
    r ← retry fuel fuel store call
    if is_negative r.rc
        then (do st ← error_text r.rc; error_throw (codes "[" ++ funcname ++ codes "] " ++ st))
        else skip
    pure r
