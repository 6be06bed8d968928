-- ===== src/Sftp/Serving.antt =====
-- The end of `read_thread`, from `libssh2_sftp_init` on, call by call.
use power_boot.Prelude.{ℕ, suc, ◌≡◌, refl, ap, ◌∙◌, some, ◌∷◌}
use power_boot.Prelude.Text.{Text, codes}
use power_boot.World.{World}
use power_boot.World.Session.{ReadThreadCommand, open_state}
use power_boot.World.Calls.{ssh, SshCall, read_thread}
use power_boot.Effects.{
  Env, done, stopped, M, pure, ◌>>=◌, ◌>>◌, skip, get, put_sftp, ssh_call, dispose_thread,
}
use power_boot.Effects.Steps.{Resumes, then-done, ssh_call-done, printf-done}
use power_boot.Sftp.{read_error_throw}
use power_boot.Sftp.ReadThread.{init_loop, receive, serve}
use power_boot.Sftp.Exact.{reported}
use power_boot.Sftp.Ending.{IsAloof, past}

module _ (env : Env) where
  -- Behind `libssh2_sftp_init` and the assignment of what it gives.
  abbrev pub init_call : World → SshCall
  init_call w = SshCall.sftp_init w.sftp.session

  abbrev initialized : World → World
  initialized w =
      let w' = past env (init_call w) w in
      record w' { sftp = record w'.sftp { sftp_pointer = (env.ssh_reply w (init_call w)).pointer } }

  -- Behind the opening of the channel; from here on the session counts as open.
  abbrev opened : World → World
  opened w =
      let call = SshCall.channel_open w.sftp.session in
      let w' = past env call w in
      record w' {
        sftp = record w'.sftp {
          channel = (env.ssh_reply w call).pointer;
          read_thread_state = open_state;
        };
      }

module _ (env : Env) (go : Resumes env) where
  init_loop-done :
      (p fuel waits : ℕ) (w : World)
      → (env.ssh_reply w (init_call env w)).pointer ≡ some p
      → init_loop env (suc fuel) waits w ≡ done tt (initialized env w)
  unfolding init_loop ◌>>=◌ ◌>>◌ get put_sftp skip pure
  init_loop-done p fuel waits w e = rw (ssh_call-done env go (init_call env w) w, e) refl

  receive-done :
      (fuel : ℕ) (w : World)
      → w.sftp.read_thread_command ≡ ReadThreadCommand.wait
      → receive env (suc fuel) w ≡ done tt w
  unfolding receive ◌>>=◌ get skip pure
  receive-done fuel w e = rw e refl

  read_error_throw-stopped :
      (s : Text) (w : World)
      → env.me ≡ read_thread
      → read_error_throw env s w
        ≡ stopped (record (reported env s w) { ended = read_thread ∷ (reported env s w).ended })
  unfolding read_error_throw dispose_thread ◌>>=◌ ◌>>◌
  read_error_throw-stopped s w me = rw (printf-done env go _ w, me)

  -- `serve` behind its first loop.
  open_channel : ℕ → M (Unit {0})
  open_channel fuel = do
    w ← get
    c ← ssh_call env (SshCall.channel_open w.sftp.session)
    put_sftp (λ s. record s { channel = c.pointer })
    put_sftp (λ s. record s { read_thread_state = open_state })
    receive env fuel
    read_error_throw env (codes "Disconnected by server.\n")

  open_channel-step :
      (fuel : ℕ) (w : World)
      → open_channel fuel w
        ≡ (receive env fuel >> read_error_throw env (codes "Disconnected by server.\n"))
            (opened env w)
  unfolding open_channel ◌>>=◌ ◌>>◌ get put_sftp
  open_channel-step fuel w = simp (ssh_call-done env go)

  -- The end of the thread that reports that the server has left.
  abbrev dropped : World → World
  dropped w =
      let w' = reported env (codes "Disconnected by server.\n") w in
      record w' { ended = read_thread ∷ w'.ended }

  serve-dropped :
      (p fuel : ℕ) (w : World)
      → env.me ≡ read_thread
      → (env.ssh_reply w (init_call env w)).pointer ≡ some p
      → (opened env (initialized env w)).sftp.read_thread_command ≡ ReadThreadCommand.wait
      → serve env (suc fuel) w ≡ stopped (dropped (opened env (initialized env w)))
  unfolding serve open_channel
  serve-dropped p fuel w me pointer command =
      then-done (init_loop env (suc fuel) (suc fuel)) (open_channel (suc fuel)) w
        (init_loop-done p fuel (suc fuel) w pointer)
      ∙ open_channel-step (suc fuel) (initialized env w)
      ∙ then-done (receive env (suc fuel)) _ (opened env (initialized env w))
          (receive-done fuel (opened env (initialized env w)) command)
      ∙ read_error_throw-stopped _ (opened env (initialized env w)) me

-- The end of the thread that has printed a text last, behind a turn of the other threads.
abbrev pub Reported : Env → Text → World → Type 0
Reported env text w' =
    (u : World) × (w' ≡ (
      let v = env.interfere (record u { stdout = text ∷ u.stdout; ticks = suc u.ticks }) in
      record v { ended = read_thread ∷ v.ended }))

-- Where the other threads leave the client and this thread alone, its command is `Wait`, as from
-- the start, and `libssh2_sftp_init` gives a session at once: `serve` in its own thread, with any
-- fuel but 0, opens the session and prints that the server has disconnected, without having asked
-- the channel for anything; the others have a turn at that print, and then the thread disposes of
-- itself. The session is left open, with that SFTP session.
pub serve-stopped :
    {env : Env} (p fuel : ℕ) (w : World)
    → IsAloof env
    → env.me ≡ read_thread
    → w.sftp.read_thread_command ≡ ReadThreadCommand.wait
    → (env.ssh_reply w (init_call env w)).pointer ≡ some p
    → (w' : World) × ((serve env (suc fuel) w ≡ stopped w')
        × ((w'.sftp.read_thread_state ≡ open_state)
            × (Reported env (codes "Disconnected by server.\n\n") w'
                × ((w'.sftp.sftp_pointer ≡ some p)
                    × (w'.trace
                        ≡ ssh (SshCall.channel_open w.sftp.session)
                          ∷ ssh (init_call env w)
                          ∷ w.trace)))))
unfolding power_boot.Errors.buffer_255
serve-stopped {env} p fuel w aloof me command pointer = (
  _,
  (
    serve-dropped env aloof.resumes p fuel w me pointer (
        ap (λ s. s.read_thread_command) (aloof.same_sftp _)
        ∙ ap (λ s. s.read_thread_command) (aloof.same_sftp _)
        ∙ command),
    (
      ap (λ s. s.read_thread_state) (aloof.same_sftp _),
      (
        (_, refl),
        (
          ap (λ s. s.sftp_pointer) (aloof.same_sftp _)
              ∙ ap (λ s. s.sftp_pointer) (aloof.same_sftp _)
              ∙ pointer,
          aloof.same_trace _
              ∙ aloof.same_trace _
              ∙ ap (λ s. ssh (SshCall.channel_open s.session) ∷ (initialized env w).trace)
                  initialized-session
              ∙ ap (λ t. ssh (SshCall.channel_open w.sftp.session) ∷ t) (aloof.same_trace _),
        ),
      ),
    ),
  ),
)
  where
    initialized-session : (past env (init_call env w) w).sftp ≡ w.sftp
    initialized-session = aloof.same_sftp _
