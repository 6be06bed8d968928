-- ===== src/Threads/Calls.antt =====
-- The single changes, the reports of errors and the loops that wait keep what every step keeps.
use power_boot.Prelude.{
  ℕ, zero, suc, none, ◌≡◌, sym, Bool, true, false, ◌∷◌, Option-cases, inl, inr, if◌then◌else◌,
}
use mathlib.Core.Path.{subst}
use power_boot.Prelude.Text.{Text}
use power_boot.Errors.{OsErr, error_name}
use power_boot.World.{World, lookup}
use power_boot.World.Sockets.{Socket}
use power_boot.World.Calls.{
  Thread, main_thread, OtCall, OtResult, count, error, SshCall, ot, ssh, new_thread,
}
use power_boot.Effects.{
  Env, done, stopped, M, ◌>>=◌, put_sftp, put_finished, at, deref, modify, same_thread, yield,
  ot_call, ssh_call, printf, new_thread_of, dispose_thread, mac_error_throw, throw_os_err,
  throw_result, yield_while,
}
use power_boot.Effects.Steps.{left_by, left_by-resume}
use power_boot.Net.Table.{IsQuietEntry, IsTable-IsQuietEntry, IsQuiet}
use power_boot.Threads.{
  Role, Write, write, Assign, assign, May, Past, needed, IsBehind, yielded, printed, called,
  disposed, finished, wrote, assigned,
}
use power_boot.Threads.Rules.{
  IsInductive, Rely, Preserves, Preserves-pure, Preserves-skip, Preserves-get, Preserves-undefined,
  Preserves-spinning, Preserves-bind, Preserves-then, Preserves-if, Preserves-cases,
  Preserves-option,
}

module _ {role : Role} {P : World → Type 0} {env : Env} (k : Rely role P env) where
  pub Preserves-put_sftp :
      (a : Assign) → ((w : World) → P w → May role w a) → Preserves P (put_sftp (assign a))
  unfolding put_sftp
  Preserves-put_sftp a may = record { run = λ w p. k.inv.step w _ p (assigned a (may w p)) }

  pub Preserves-put_finished : (b : Bool) → Preserves P (put_finished b)
  unfolding put_finished
  Preserves-put_finished b = record { run = λ w p. k.inv.step w _ p (finished b) }

  pub Preserves-at : (fd : ℕ) → Preserves P (at fd)
  unfolding at
  Preserves-at fd = record {
    run = λ w p. elim (Option-cases (lookup fd w.sockets)) [
      | inl e ↦ rw (e, at, left_by) p
      | inr (s, e) ↦ rw (e, at, left_by) p
    ];
  }

  pub Preserves-deref : (fd : ℕ) → Preserves P (deref fd)
  unfolding deref
  Preserves-deref fd = record {
    run = λ w p. elim (Option-cases (lookup fd w.sockets)) [
      | inl e ↦ rw (e, deref, left_by) p
      | inr (s, e) ↦ rw (e, deref, left_by) p
    ];
  }

  -- The object is known to be quiet.
  pub Preserves-deref_quiet :
      {A : Type 0} (fd : ℕ) (f : Socket → M A)
      → ((s : Socket) → IsQuiet s → Preserves P (f s))
      → Preserves P (deref fd >>= f)
  unfolding deref ◌>>=◌
  Preserves-deref_quiet fd f kf = record {
    run = λ w p. elim (Option-cases (lookup fd w.sockets)) [
      | inl e ↦ rw (e, deref, left_by) p
      | inr (s, e) ↦
          rw (e, deref, left_by)
            ((kf s (subst IsQuietEntry e (IsTable-IsQuietEntry (k.inv.table w p) fd))).run w p)
    ];
  }

  pub Preserves-modify : (fd : ℕ) (c : Write) → Preserves P (modify fd (write c))
  unfolding modify
  Preserves-modify fd c = record {
    run = λ w p. elim (Option-cases (lookup fd w.sockets)) [
      | inl e ↦ rw (e, modify, left_by) p
      | inr (s, e) ↦ rw (e, modify, left_by) (k.inv.step w _ p (wrote fd c))
    ];
  }

  pub Preserves-ot_call : (c : OtCall) → Preserves P (ot_call env c)
  unfolding ot_call
  Preserves-ot_call c = record { run = λ w p. k.inv.step w _ p (called (ot c) (inr tt)) }

  pub Preserves-new_thread_of :
      (t : Thread)
      → ((w : World) → P w → Past role (needed (new_thread t)) w)
      → Preserves P (new_thread_of env t)
  unfolding new_thread_of
  Preserves-new_thread_of t past = record {
    run = λ w p. k.inv.step w _ p (called (new_thread t) (past w p));
  }

  -- The thread for reading is the only one that comes behind a call.
  pub Preserves-free_thread :
      (t : Thread) → needed (new_thread t) ≡ none → Preserves P (new_thread_of env t)
  Preserves-free_thread t e =
      Preserves-new_thread_of t λ w p. inr (subst (λ o. IsBehind role o w.trace) (sym e) tt)

  pub Preserves-dispose : (t : Thread) → Preserves P (dispose_thread env t)
  unfolding dispose_thread
  Preserves-dispose t = record { run = λ w p. ended (same_thread env.me t) w p }
    where
      ended :
          (b : Bool) (w : World)
          → P w
          → P (
              left_by (
                let w' : World = record w { ended = t ∷ w.ended } in
                if b then stopped w' else done tt w'))
      ended true w p = k.inv.step w _ p (disposed t)
      ended false w p = k.inv.step w _ p (disposed t)

  pub Preserves-yield : Preserves P (yield env)
  unfolding yield
  Preserves-yield = record {
    run = λ w p. left_by-resume P env tt _ (k.interfere _ (k.inv.step w _ p yielded));
  }

  pub Preserves-printf : (s : Text) → Preserves P (printf env s)
  unfolding printf yield
  Preserves-printf s = record {
    run = λ w p.
        left_by-resume P env tt _
          (k.interfere _ (k.inv.step _ _ (k.inv.step w _ p (printed s)) yielded));
  }

  pub Preserves-ssh_call :
      (c : SshCall)
      → ((w : World) → P w → Past role (needed (ssh c)) w)
      → Preserves P (ssh_call env c)
  unfolding ssh_call
  Preserves-ssh_call c admits = record {
    run = λ w p.
        left_by-resume P env _ _ (k.interfere _ (k.inv.step w _ p (called (ssh c) (admits w p))));
  }

  -- A call that comes behind no other.
  pub Preserves-free_call : (c : SshCall) → needed (ssh c) ≡ none → Preserves P (ssh_call env c)
  Preserves-free_call c e =
      Preserves-ssh_call c λ w p. inr (subst (λ o. IsBehind role o w.trace) (sym e) tt)

  pub Preserves-mac_error_throw : (s : Text) → Preserves P (mac_error_throw env s)
  unfolding mac_error_throw
  Preserves-mac_error_throw s =
      Preserves-then _ _ (Preserves-printf _)
        (Preserves-then _ _ (Preserves-dispose main_thread) Preserves-yield)

  Preserves-throw_os_err :
      (file : Text) (line : ℕ) (func : Text) (err : OsErr)
      → Preserves P (throw_os_err env file line func err)
  unfolding throw_os_err
  Preserves-throw_os_err file line func err =
      Preserves-option (error_name err) Preserves-skip λ name. Preserves-mac_error_throw _

  pub Preserves-throw_result :
      (file : Text) (line : ℕ) (func : Text) (o : OtResult)
      → Preserves P (throw_result env file line func o)
  unfolding throw_result
  Preserves-throw_result file line func (count n) = Preserves-skip
  Preserves-throw_result file line func (error e) = Preserves-throw_os_err file line func e

  pub Preserves-yield_while :
      (fuel : ℕ) (test : M Bool) → Preserves P test → Preserves P (yield_while env fuel test)
  unfolding yield_while
  Preserves-yield_while zero test kt = Preserves-spinning
  Preserves-yield_while (suc fuel) test kt = Preserves-bind test _ kt λ b.
      Preserves-cases b (Preserves-then _ _ Preserves-yield (Preserves-yield_while fuel test kt))
        Preserves-skip

pub ruleset preserving = (
  Preserves-pure, Preserves-skip, Preserves-get, Preserves-undefined, Preserves-spinning,
  Preserves-bind, Preserves-then, Preserves-if, Preserves-cases, Preserves-option,
  Preserves-put_sftp, Preserves-put_finished, Preserves-at, Preserves-deref, Preserves-modify,
  Preserves-ot_call, Preserves-free_thread, Preserves-dispose, Preserves-yield, Preserves-printf,
  Preserves-free_call, Preserves-mac_error_throw, Preserves-throw_result, Preserves-yield_while,
)
