-- ===== src/Threads/Schedule.antt =====
-- The threads of the program among themselves: a turn of the others is made of their code alone,
-- each piece of which again runs while further threads have turns.
use power_boot.Prelude.{
  ◌≡◌, ◌⊎◌, List, ℕ, ap, ◌∙◌, refl, inl, inr, true, Bool, false, arith, length,
}
use power_boot.World.{World}
use power_boot.World.Calls.{Call, SshCall}
use power_boot.Threads.Rules.{Truthful}
use power_boot.Effects.{Env}
use power_boot.Effects.Steps.{Resumes, left_by}
use power_boot.Net.Table.{IsTable}
use power_boot.Threads.{Role, Reach, here}
use power_boot.Threads.Order.{Fair, InOrder, Fair-InOrder}
use power_boot.Threads.Code.{Code, run_code}
use power_boot.Threads.Lasting.{Lasts}
use power_boot.Threads.Steps.{Reach-IsTable, Reach-Lasts, Reach-state, Reach-trans}
use power_boot.Net.Waiting.{Spins}
use power_boot.Sftp.Session.{connect, is_open}
use power_boot.Sftp.Opening.{IsClosed, connect-Spins_while}
use power_boot.Threads.Program.{Fits, OthersStep, Ready, run_code-Reach, Reach-Fair}

-- What the other threads do from one state on, piece by piece: `other` is what a piece finds around
-- it, and whether it goes on from its yields.
pub data Turn (role : Role) : World → World → Type 0 where
  idle : {w : World} → Turn role w w
  ran :
      {w u : World}
      → Turn role w u
      → (other : Env) → ((v : World) → Turn role v (other.interfere v))
      → (role.free ≡ true) ⊎ Truthful role other
      → (c : Code) → Fits role other c
      → Ready role c u
      → Turn role w (left_by (run_code other c u))

Turn-Reach :
    {role : Role} {w u : World} → Turn role w u → IsTable 0 w.sockets → Fair role w → Reach role w u
Turn-Reach idle is fair = here
Turn-Reach {role} (ran t other turns honest c fits past) is fair =
    let r = Turn-Reach t is fair in
    let others : OthersStep role other = record {
      moves = λ v vs vf. Turn-Reach (turns v) vs vf;
      truthful = honest;
    } in
    Reach-trans r (run_code-Reach others c _ fits past (Reach-IsTable is r) (Reach-Fair fair r))

-- Threads that may run any of the code, and all threads but those that use the client from outside.
abbrev pub freely : Bool → Role
freely reads = record { reads = reads; free = true; accepts = λ trace c. true }

pub free-Ready : (reads : Bool) (c : Code) (w : World) → Ready (freely reads) c w
free-Ready reads (Code.connect fuel) w = inl refl
free-Ready reads (Code.read_thread fuel options) w = inl refl
free-Ready reads _ w = inl refl

-- All threads but those, where libssh2 brings about what `accepts` has.
abbrev pub in_order : (List Call → SshCall → Bool) → Role
in_order accepts = record { reads = true; free = false; accepts = accepts }

-- Turns are steps of the program.
pub turns-OthersStep :
    {role : Role} {env : Env}
    → (role.free ≡ true) ⊎ Truthful role env
    → ((v : World) → Turn role v (env.interfere v))
    → OthersStep role env
turns-OthersStep honest turns = record {
  moves = λ v is fair. Turn-Reach (turns v) is fair;
  truthful = honest;
}

-- Where the other threads move by steps of the program at each yield, whatever piece of its code a
-- thread runs (`read_thread` only if it is among the threads), from a table of sockets as it should
-- be, at its end, however it ends, each socket is still there with its id, endpoint and
-- configuration, all are quiet, the state of the session is open if it was, its command and handle
-- are as before, and the disposed threads, the foreign calls, the output and the yields have only
-- grown.
pub run_code-Lasts :
    {reads : Bool} (env : Env) (c : Code) (w : World)
    → OthersStep (freely reads) env
    → Fits (freely reads) env c
    → IsTable 0 w.sockets
    → Lasts w (left_by (run_code env c w))
      × IsTable (length w.sockets) (left_by (run_code env c w)).sockets
run_code-Lasts {reads} env c w others fits is =
    let r = run_code-Reach others c w fits (free-Ready reads c w) is (inl refl) in
    (Reach-Lasts r, Reach-IsTable (record { counts = is.counts; enough = omega arith }) r)

-- Where the other threads run nothing but code of the program, and none of them the body of
-- `read_thread`: `SFTP::connect` of a session that is not open, on a table as it should be,
-- outlasts every fuel, if no other thread disposes of this one.
pub connect-unserved :
    (env : Env) (fuel : ℕ) (w : World)
    → ((v : World) → Turn (freely false) v (env.interfere v))
    → Resumes env
    → IsTable 0 w.sockets
    → IsClosed w
    → Spins (connect env fuel w)
connect-unserved env fuel w turns go is closed =
    connect-Spins_while env go (IsTable 0)
      (λ v vs c.
        let r = Turn-Reach (turns v) vs (inl refl) in
        (Reach-IsTable vs r, ap is_open (Reach-state refl r) ∙ c))
      fuel w is closed

-- Of the threads that run `main`, `main_func`, `read_thread` and the code of the sockets: where the
-- other threads move at each yield by steps of the program that are in order, with a set of calls
-- of libssh2 that may end without an error, to which at least each handshake belongs to which it
-- replies 0 to this thread, and each `libssh2_sftp_init` for which this thread gets an SFTP
-- session: whatever piece of this code the thread runs, `SFTP::connect` only once
-- `libssh2_session_init` was called, and `read_thread` only in the thread for reading, once that
-- was started, from a state that is in order, on a table as it should be, the state is in order at
-- the end, however it ends. That is: the thread for reading is started behind a call of
-- `libssh2_session_init`, and a handshake asked for behind that start; of all the calls of libssh2,
-- those that ask for the authentication or for an SFTP session came behind a handshake of that set,
-- that for a channel behind an SFTP session of that set, and those about files and directories, or
-- on the channel, behind that for the channel, but not the closing of the handle at the end of a
-- session; and the session is open behind that only.
pub run_code-InOrder :
    (env : Env) (accepts : List Call → SshCall → Bool) (c : Code) (w : World)
    → OthersStep (in_order accepts) env
    → Fits (in_order accepts) env c
    → Ready (in_order accepts) c w
    → IsTable 0 w.sockets
    → InOrder (in_order accepts) w
    → InOrder (in_order accepts) (left_by (run_code env c w))
run_code-InOrder env accepts c w others fits past is p =
    Fair-InOrder (in_order accepts) refl
      (Reach-Fair (inr p) (run_code-Reach others c w fits past is (inr p)))
