-- ===== src/Sftp/Session.antt =====
-- src/transfer/sftp: the life of a session. The constructor and the destructor of sftp.cpp, and
-- `connect` of connection.cpp.
use power_boot.Prelude.{ℕ, zero, suc, Bool, true, false, not, none, some, ◌++◌, if◌then◌else◌}
use power_boot.Prelude.Text.{codes}
use power_boot.World.Session.{ReadThreadState, open_state}
use power_boot.World.Calls.{read_thread, SshCall}
use power_boot.Effects.{
  Env, M, pure, ◌>>=◌, ◌>>◌, skip, get, put_sftp, spinning, undefined, ssh_call, printf,
  new_thread_of, yield_while,
}
use power_boot.Sftp.{is_again, is_zero, error_throw, error_text}

abbrev pub is_open : ReadThreadState → Bool
is_open open_state = true
is_open _ = false

module _ (env : Env) where
  -- `SFTP::SFTP`: the report of a failed `libssh2_init` prints a number by `%s`.
  unfoldable pub new_session : M (Unit {0})
  new_session = do
    r ← ssh_call env SshCall.init
    put_sftp (λ s. record s { rc = r.rc })
    if is_zero r.rc then skip else undefined
    s ← ssh_call env SshCall.session_init
    put_sftp (λ t. record t { session = s.pointer })
    elim s.pointer [
      | some p ↦ skip
      | none ↦ (do
        w ← get
        error_text env w.sftp.rc
        error_throw env (codes "Could not initialize SSH session:"))
    ]
    w ← get
    ssh_call env (SshCall.set_blocking w.sftp.session false)
    skip

  -- The `while` of the destructor, which does not yield between its calls.
  unfoldable pub disconnect_loop : ℕ → M (Unit {0})
  disconnect_loop zero = spinning
  disconnect_loop (suc fuel) = do
    w ← get
    r ← ssh_call env (SshCall.session_disconnect w.sftp.session)
    elim (is_again r.rc) [ true ↦ disconnect_loop fuel | false ↦ skip ]

  -- `SFTP::~SFTP`; an id of a socket is never LIBSSH2_INVALID_SOCKET.
  unfoldable pub end_session : ℕ → M (Unit {0})
  end_session fuel = do
    w ← get
    ssh_call env (SshCall.sftp_close w.sftp.sftp_handle)
    ssh_call env SshCall.sftp_shutdown
    w ← get
    elim w.sftp.session [
      | none ↦ skip
      | some p ↦ disconnect_loop fuel >> ssh_call env (SshCall.session_free (some p)) >> skip
    ]
    w ← get
    ssh_call env (SshCall.socket_close w.sftp.sock)
    ssh_call env SshCall.exit
    skip

  -- `SFTP::connect`
  unfoldable pub connect : ℕ → M (Unit {0})
  connect fuel = do
    new_thread_of env read_thread
    w ← get
    elim (env.thread_error w) [
      | none ↦ skip
      | some err ↦ printf env (codes "Failed to create connection thread: " ++ err)
    ]
    yield_while env fuel (get >>= λ w. pure (not (is_open w.sftp.read_thread_state)))
