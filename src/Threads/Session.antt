-- ===== src/Threads/Session.antt =====
-- The session in steps of the shared state, without the thread that serves it.
use power_boot.Prelude.Text.{codes}
use power_boot.Prelude.{some, none, Option, inr, false, ℕ, zero, suc, refl}
use power_boot.World.{World}
use power_boot.World.Calls.{SshCall}
use power_boot.Threads.{Past, created, Role}
use power_boot.Threads.Stages.{
  Past-IsLasting, Leads-first, ssh_call-Leads, Opened, Leads, Leads-later, Leads-then,
  await_open-Leads,
}
use power_boot.Effects.{put_sftp, ◌>>=◌, ◌>>◌, ssh_call, skip, Env, get}
use power_boot.Sftp.{error_text, error_throw, is_again}
use power_boot.Sftp.Session.{new_session, disconnect_loop, end_session, connect}
use power_boot.Threads.Rules.{
  Rely-and, Rely, Preserves, Preserves-bind, Preserves-then, Preserves-skip, Preserves-cases,
  Preserves-option, Preserves-get, Preserves-spinning,
}
use power_boot.Threads.Calls.{
  Preserves-free_call, Preserves-printf, Preserves-new_thread_of, preserving,
}
use power_boot.Threads.Writes.{rc_put, session_put}
use power_boot.Threads.Client.{Preserves-error_throw, Preserves-error_text}

module _ {role : Role} {P : World → Type 0} {env : Env} (k : Rely role P env) where
  -- Behind the call that makes the session.
  made-Preserves :
      (o : Option ℕ)
      → Preserves P (do
        put_sftp (λ t. record t { session = o })
        elim o [
          | some p ↦ skip
          | none ↦ (do
            w ← get
            error_text env w.sftp.rc
            error_throw env (codes "Could not initialize SSH session:"))
        ]
        w ← get
        ssh_call env (SshCall.set_blocking w.sftp.session false)
        skip)
  made-Preserves o = Preserves-then _ _ (session_put k o) (
      Preserves-then _ _
        (Preserves-option o (search (preserving, Preserves-error_text, Preserves-error_throw))
          (λ _. Preserves-skip))
        (search preserving))

  disconnect_loop-Preserves : (fuel : ℕ) → Preserves P (disconnect_loop env fuel)
  unfolding disconnect_loop
  disconnect_loop-Preserves zero = Preserves-spinning
  disconnect_loop-Preserves (suc fuel) = Preserves-bind get _ Preserves-get λ w.
      Preserves-bind _ _ (Preserves-free_call k _ refl)
        λ r. Preserves-cases (is_again r.rc) (disconnect_loop-Preserves fuel) Preserves-skip

  pub end_session-Preserves : (fuel : ℕ) → Preserves P (end_session env fuel)
  unfolding end_session
  end_session-Preserves fuel = Preserves-bind get _ Preserves-get λ w.
      Preserves-then _ _ (Preserves-free_call k _ refl) (
        Preserves-then _ _ (Preserves-free_call k _ refl) (
          Preserves-bind get _ Preserves-get λ w.
            Preserves-then _ _
              (Preserves-option w.sftp.session Preserves-skip
                λ p. search (preserving, disconnect_loop-Preserves))
              (search preserving)))

  -- `connect` of a session that was made.
  module _ (past : (w : World) → P w → Past role (some created) w) where
    pub connect-Preserves : (fuel : ℕ) → Preserves P (connect env fuel)
    unfolding connect
    connect-Preserves fuel = Preserves-then _ _ (Preserves-new_thread_of k _ past) (
        Preserves-bind get _ Preserves-get λ w.
          Preserves-then _ _
            (Preserves-option (env.thread_error w) Preserves-skip λ err. Preserves-printf k _)
            (search preserving depth 10))

    -- Where it returns, the session is open.
    pub connect-Leads : (fuel : ℕ) → Leads P Opened (connect env fuel)
    unfolding connect
    connect-Leads fuel = Leads-then _ _ (Preserves-new_thread_of k _ past) (
        Leads-later get _ Preserves-get λ w.
          Leads-then _ _
            (Preserves-option (env.thread_error w) Preserves-skip λ err. Preserves-printf k _)
            (await_open-Leads k fuel))

module _ {role : Role} {P : World → Type 0} {env : Env} (k : Rely role P env) where
  pub new_session-Leads : Leads P (Past role (some created)) (new_session env)
  unfolding new_session
  new_session-Leads = Leads-later _ _ (Preserves-free_call k _ refl) λ r.
      Leads-then _ _ (rc_put k r.rc) (
        Leads-then _ _ (search preserving) (
          Leads-first _ _ (ssh_call-Leads k created _ (λ trace. refl) λ w p. inr tt)
            λ s. made-Preserves (Rely-and k (Past-IsLasting role (some created))) s.pointer))

  pub new_session-Preserves : Preserves P (new_session env)
  new_session-Preserves = record { run = λ w p. (new_session-Leads.run w p).0 }
