-- ===== src/Sftp/Meeting.antt =====
-- `SFTP::connect` in the main thread and the end of `read_thread` together: what the one finds when
-- the other has run.
use power_boot.Prelude.{ℕ, zero, suc, refl, ◌<◌, ◌≡◌, ap, ◌∙◌, none, some, List, ◌∷◌}
use power_boot.World.{World}
use power_boot.World.Session.{ReadThreadCommand, open_state}
use power_boot.World.Calls.{Thread, read_thread}
use power_boot.Effects.{Env, done}
use power_boot.Effects.Steps.{Resumes, left_by}
use power_boot.Sftp.Session.{connect, is_open}
use power_boot.Sftp.ReadThread.{serve}
use power_boot.Sftp.Opening.{IsClosed, started, connect-done}
use power_boot.Effects.Waiting.{turn, turns}
use power_boot.Sftp.Ending.{IsAloof}
use power_boot.Sftp.Serving.{init_call, serve-stopped}

-- The state that other threads find when this one yields.
abbrev pub yielded : World → World
yielded w = record w { ticks = suc w.ticks }

turns-suc : (env : Env) (k : ℕ) (w : World) → turns env (suc k) w ≡ turn env (turns env k w)
turns-suc env zero w = refl
turns-suc env (suc k) w = turns-suc env k (turn env w)

-- The session is open in `w`, and its thread has been disposed of.
abbrev pub OpenWithoutThread : World → Type 0
OpenWithoutThread w =
    (w.sftp.read_thread_state ≡ open_state)
    × ((others : List Thread) × (w.ended ≡ read_thread ∷ others))

-- Where the thread for reading comes to its last part when `connect` yields for the `k + 1`-th
-- time, the session not being open before, and runs on undisturbed, with a `libssh2_sftp_init` that
-- succeeds at once, and `connect` is not disposed of: it returns from just that yield, with a
-- session that counts as open although its thread is gone.
pub connect-meets-serve :
    (env reading : Env) (p k fuel calls : ℕ) (w : World)
    → Resumes env
    → env.thread_error (started w) ≡ none
    → suc k < fuel
    → ((i : ℕ) → i < suc k → IsClosed (turns env i (started w)))
    → env.interfere (yielded (turns env k (started w)))
      ≡ left_by (serve reading (suc calls) (yielded (turns env k (started w))))
    → IsAloof reading
    → reading.me ≡ read_thread
    → (turns env k (started w)).sftp.read_thread_command ≡ ReadThreadCommand.wait
    → (reading.ssh_reply
        (yielded (turns env k (started w)))
        (init_call reading (yielded (turns env k (started w))))).pointer
      ≡ some p
    → (w' : World) × ((connect env fuel w ≡ done tt w') × OpenWithoutThread w')
connect-meets-serve env reading p k fuel calls w go created lt closed runs aloof me command
      pointer =
    let met : World = yielded (turns env k (started w)) in
    let (end, (ends, (opened, ((_, reported), _)))) =
      serve-stopped p calls met aloof me command pointer in
    let there : turns env (suc k) (started w) ≡ end =
      turns-suc env k (started w) ∙ runs ∙ ap left_by ends in
    (
      end,
      (
        connect-done env go (suc k) fuel w created lt closed
              (ap (λ v. is_open v.sftp.read_thread_state) there ∙ ap is_open opened)
            ∙ ap (done tt) there,
        (opened, (_, ap (λ v. v.ended) reported)),
      ),
    )
