-- ===== src/Sftp/ReadThread.antt =====
-- src/transfer/sftp/readthread.cpp: `read_thread`, which connects, authenticates and serves.
use power_boot.Prelude.{
  ℕ, zero, suc, Bool, true, false, ◌&&◌, ◌||◌, none, some, [], ◌∷◌, ◌++◌, ◌==◌, if◌then◌else◌,
}
use power_boot.Prelude.Text.{Text, codes, c_str}
use power_boot.Inet.{inet_addr, htons}
use power_boot.World.Session.{Rc, ok, ReadThreadCommand, open_state}
use power_boot.World.Calls.{SshCall}
use power_boot.Effects.{
  Env, M, pure, ◌>>=◌, ◌>>◌, skip, get, put_sftp, spinning, yield, ssh_call, printf,
}
use power_boot.Net
use power_boot.Net.{sock_stream}
use power_boot.Transfer.{ConnectionOptions}
use power_boot.Sftp.{is_again, is_negative, is_zero, read_error_throw, error_text, wait}
use power_boot.Sftp.Session.{is_open}

-- The calls for the two methods of authentication.
abbrev pub publickey_call : ConnectionOptions → SshCall
publickey_call o =
    SshCall.userauth_publickey (c_str o.username) (c_str o.pubkey) (c_str o.privkey)
      (c_str o.password)

abbrev pub password_call : ConnectionOptions → SshCall
password_call o = SshCall.userauth_password (c_str o.username) (c_str o.password)

abbrev pub is_read : ReadThreadCommand → Bool
is_read ReadThreadCommand.read = true
is_read _ = false

abbrev pub is_exit : ReadThreadCommand → Bool
is_exit ReadThreadCommand.exit = true
is_exit _ = false

-- `strstr(text, word)`, as a test
abbrev starts_with : Text → Text → Bool
starts_with [] text = true
starts_with (a ∷ word) [] = false
starts_with (a ∷ word) (b ∷ text) = (a == b) && starts_with word text

unfoldable pub contains : Text → Text → Bool
contains word [] = starts_with word []
contains word (c ∷ text) = starts_with word (c ∷ text) || contains word text

module _ (env : Env) where
  -- The `while` around `libssh2_session_handshake`.
  unfoldable pub handshake : ℕ → M Rc
  handshake zero = spinning
  handshake (suc fuel) = do
    w ← get
    r ← ssh_call env (SshCall.handshake w.sftp.session w.sftp.sock)
    elim (is_again r.rc) [ true ↦ yield env >> handshake fuel | false ↦ pure r.rc ]

  -- The socket and the connection, up to the handshake and the report of its failure.
  unfoldable pub open_connection : ℕ → ConnectionOptions → M Rc
  open_connection fuel options = do
    sock ← Net.socket env sock_stream
    put_sftp (λ s. record s { sock = sock })
    put_sftp (λ s. record s { hostaddr = inet_addr (some (c_str options.addr)) })
    put_sftp (λ s. record s { sin_port = htons options.port })
    status ← Net.connect env fuel
    if status == 0 then skip else read_error_throw env (codes "failed to connect.")
    rc ← handshake fuel
    if is_zero rc then skip else (do
      st ← error_text env (ok 0)
      read_error_throw env (codes "\nFailure establishing SSH session: " ++ st))
    pure rc

  -- The `while` that asks for the authentication methods.
  unfoldable pub auth_methods : ℕ → ℕ → ConnectionOptions → M Text
  auth_methods zero waits options = spinning
  auth_methods (suc fuel) waits options = do
    w ← get
    elim w.sftp.userauthlist [
      | some list ↦ pure list
      | none ↦ (do
        w ← get
        r ← ssh_call env (SshCall.userauth_list w.sftp.session options.username)
        put_sftp (λ s. record s { userauthlist = r.text })
        wait env waits
        auth_methods fuel waits options)
    ]

  -- One method of authentication: `true` is the `goto success`.
  unfoldable pub attempt : Text → SshCall → Text → Rc → Text → M Bool
  attempt method call name rc list =
      if contains method list
      then (do
        r ← ssh_call env call
        if is_negative r.rc
            then (do
              st ← error_text env rc
              printf env (name ++ codes " Auth failed: " ++ st ++ codes "\n")
              pure false)
            else pure true)
      else pure false

  unfoldable pub authenticate : ConnectionOptions → Rc → Text → M (Unit {0})
  authenticate options rc list = do
    printf env (codes "Authentication methods: " ++ list ++ codes "\n")
    b ← attempt (codes "publickey") (publickey_call options) (codes "PublicKey") rc list
    c ←
        (if b
          then pure true
          else attempt (codes "password") (password_call options) (codes "Password") rc list)
    if c then skip else read_error_throw env (codes "failed to connect")
    printf env (codes "Success\n")

  -- The `do` around `libssh2_sftp_init`.
  unfoldable pub init_loop : ℕ → ℕ → M (Unit {0})
  init_loop zero waits = spinning
  init_loop (suc fuel) waits = do
    w ← get
    r ← ssh_call env (SshCall.sftp_init w.sftp.session)
    put_sftp (λ s. record s { sftp_pointer = r.pointer })
    elim r.pointer [
      | some p ↦ skip
      | none ↦ (do
        w ← get
        e ← ssh_call env (SshCall.last_errno w.sftp.session)
        if is_again e.rc then wait env waits >> skip else (do
          st ← error_text env (ok 0)
          read_error_throw env (codes "Unable to init SFTP session: " ++ st ++ codes "\n"))
        init_loop fuel waits)
    ]

  -- The `while` that reads from the channel. `recv_buffer`, which is never given memory, is left
  -- out, with the bytes.
  unfoldable pub receive : ℕ → M (Unit {0})
  receive zero = spinning
  receive (suc fuel) = do
    w ← get
    elim (is_read w.sftp.read_thread_command && is_open w.sftp.read_thread_state) [
      | false ↦ skip
      | true ↦ (do
        e ← ssh_call env (SshCall.channel_eof w.sftp.channel)
        elim (is_zero e.rc) [
          | false ↦ skip
          | true ↦ (do
            w ← get
            r ← ssh_call env (SshCall.channel_read w.sftp.channel 4096)
            if is_negative r.rc || is_zero r.rc
                then read_error_throw env (codes "channel read error\n")
                else skip
            yield env
            receive fuel)
        ])
    ]

  -- From the SFTP session on, to the end of the thread.
  unfoldable pub serve : ℕ → M (Unit {0})
  serve fuel = do
    init_loop fuel fuel
    w ← get
    c ← ssh_call env (SshCall.channel_open w.sftp.session)
    put_sftp (λ s. record s { channel = c.pointer })
    put_sftp (λ s. record s { read_thread_state = open_state })
    receive fuel
    read_error_throw env (codes "Disconnected by server.\n")

  -- `SFTP::read_thread`
  unfoldable pub read_thread_main : ℕ → ConnectionOptions → M (Unit {0})
  read_thread_main fuel options = do
    w ← get
    if is_exit w.sftp.read_thread_command then skip else (do
      rc ← open_connection fuel options
      w ← get
      ssh_call env (SshCall.hostkey_hash w.sftp.session)
      list ← auth_methods fuel fuel options
      authenticate options rc list
      serve fuel)
