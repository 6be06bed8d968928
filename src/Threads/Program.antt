-- ===== src/Threads/Program.antt =====
-- The program as a whole: what holds of each piece of its code while the other threads run theirs.
use power_boot.World.Calls.{ssh, read_thread}
use power_boot.Prelude.{◌⊎◌, some, none, ◌≡◌, true, inl}
use power_boot.World.{World}
use power_boot.Effects.{Env, M, ◌>>◌, skip}
use power_boot.Effects.Steps.{left_by}
use power_boot.Net.Table.{IsTable}
use power_boot.Threads.Code.{Code, run_code}
use power_boot.Threads.{Past, needed, created, spawned, Role, Reach, here, next}
use power_boot.Threads.Rules.{
  Truthful, IsLasting, Rely-and, IsInductive, Rely, Preserves, Preserves-then, Preserves-skip,
}
use power_boot.Threads.Steps.{Step-IsTable, Reach-IsTable, Reach-Lasts, Reach-trans}
use power_boot.Threads.Order.{Fair, Fair-Past, Step-Fair}
use power_boot.Threads.Stages.{Past-IsLasting, Opened}
use power_boot.Threads.Sockets
use power_boot.Threads.Client.{
  Asks, perform-Preserves, openfile-Preserves, opendir-Preserves, stat-Preserves, lstat-Preserves,
  statvfs-Preserves, file_stat-Preserves, file_read-Preserves, file_statvfs-Preserves,
  file_rewind-Preserves, file_seek-Preserves, file_tell-Preserves, dir_next-Preserves,
}
use power_boot.Threads.Session
use power_boot.Threads.Reading
use power_boot.Threads.Listing

-- Only the thread for reading runs its body, in order under its own name, and of the calls of the
-- client only `connect` keeps to the order of a session by itself.
abbrev pub Fits : Role → Env → Code → Type 0
Fits role env Code.main = Unit
Fits role env Code.new_session = Unit
Fits role env (Code.main_func fuel) = Unit
Fits role env (Code.connect fuel) = Unit
Fits role env (Code.end_session fuel) = Unit
Fits role env (Code.read_thread fuel options) =
    (role.reads ≡ true) × ((role.free ≡ true) ⊎ (env.me ≡ read_thread))
Fits role env (Code.connect_thread fd address) = Unit
Fits role env (Code.notifier fuel fd code res) = Unit
Fits role env (Code.socket type) = Unit
Fits role env (Code.net_connect fuel) = Unit
Fits role env (Code.recv fuel fd nbytes) = Unit
Fits role env (Code.send fuel fd buf) = Unit
Fits role env (Code.select fuel readfds writefds) = Unit
Fits role env _ = role.free ≡ true

-- `SFTP::connect` is run on a session, and the body of the thread for reading once it was started.
abbrev pub Ready : Role → Code → World → Type 0
Ready role (Code.connect fuel) = Past role (some created)
Ready role (Code.read_thread fuel options) = Past role (some spawned)
Ready role _ = Past role none

pub Ready-IsLasting : (role : Role) (c : Code) → IsLasting (Ready role c)
Ready-IsLasting role (Code.connect fuel) = Past-IsLasting role (some created)
Ready-IsLasting role (Code.read_thread fuel options) = Past-IsLasting role (some spawned)
Ready-IsLasting role _ = Past-IsLasting role none

module _ {role : Role} {P : World → Type 0} {env : Env} (k : Rely role P env) where
  -- Where any call is admitted.
  freely : role.free ≡ true → Asks role P
  freely free c w p = inl free

  unvalued : {A : Type 0} {m : M A} → Preserves P m → Preserves P (m >> skip)
  unvalued km = Preserves-then _ _ km Preserves-skip

  pub run_code-Preserves :
      Asks role (λ w. P w × Opened w)
      → (c : Code) → Fits role env c
      → ((w : World) → P w → Ready role c w)
      → Preserves P (run_code env c)
  unfolding run_code
  run_code-Preserves asks Code.main fits past = Listing.main-Preserves k
  run_code-Preserves asks Code.new_session fits past = Session.new_session-Preserves k
  run_code-Preserves asks (Code.main_func fuel) fits past = Listing.main_func-Preserves k asks fuel
  run_code-Preserves asks (Code.connect fuel) fits past = Session.connect-Preserves k past fuel
  run_code-Preserves asks (Code.end_session fuel) fits past = Session.end_session-Preserves k fuel
  run_code-Preserves asks (Code.read_thread fuel options) fits past =
      Reading.read_thread-Preserves k fits.0 fits.1 past fuel options
  run_code-Preserves asks (Code.connect_thread fd address) fits past =
      Sockets.connect_thread-Preserves k fd address
  run_code-Preserves asks (Code.notifier fuel fd code res) fits past =
      Sockets.notifier-Preserves k fuel fd code res
  run_code-Preserves asks (Code.socket type) fits past = unvalued (Sockets.socket-Preserves k type)
  run_code-Preserves asks (Code.net_connect fuel) fits past =
      unvalued (Sockets.connect-Preserves k fuel)
  run_code-Preserves asks (Code.recv fuel fd nbytes) fits past =
      unvalued (Sockets.recv-Preserves k fuel fd nbytes)
  run_code-Preserves asks (Code.send fuel fd buf) fits past =
      unvalued (Sockets.send-Preserves k fuel fd buf)
  run_code-Preserves asks (Code.select fuel a b) fits past =
      unvalued (Sockets.select-Preserves k fuel a b)
  run_code-Preserves asks (Code.operation fuel op) fits past =
      perform-Preserves k (freely fits) fuel op
  run_code-Preserves asks (Code.openfile fuel filename flags mode) fits past =
      unvalued (openfile-Preserves k (freely fits) fuel filename flags mode)
  run_code-Preserves asks (Code.opendir fuel path) fits past =
      unvalued (opendir-Preserves k (freely fits) fuel path)
  run_code-Preserves asks (Code.stat fuel path) fits past =
      unvalued (stat-Preserves k (freely fits) fuel path)
  run_code-Preserves asks (Code.statvfs fuel path) fits past =
      unvalued (statvfs-Preserves k (freely fits) fuel path)
  run_code-Preserves asks (Code.lstat fuel path attr) fits past =
      unvalued (lstat-Preserves k (freely fits) fuel path attr)
  run_code-Preserves asks (Code.file_stat fuel handle) fits past =
      unvalued (file_stat-Preserves k (freely fits) fuel handle)
  run_code-Preserves asks (Code.file_read fuel handle) fits past =
      unvalued (file_read-Preserves k (freely fits) fuel handle)
  run_code-Preserves asks (Code.file_statvfs fuel handle) fits past =
      unvalued (file_statvfs-Preserves k (freely fits) fuel handle)
  run_code-Preserves asks (Code.dir_next fuel handle) fits past =
      unvalued (dir_next-Preserves k (freely fits) fuel handle)
  run_code-Preserves asks (Code.file_seek handle offset) fits past =
      file_seek-Preserves k (freely fits) handle offset
  run_code-Preserves asks (Code.file_rewind handle) fits past =
      file_rewind-Preserves k (freely fits) handle
  run_code-Preserves asks (Code.file_tell handle) fits past =
      unvalued (file_tell-Preserves k (freely fits) handle)

-- The other threads move by steps of the program, from tables as they should be, and if not all of
-- them are free, from states that are in order; and then libssh2 replies to this thread as it does
-- to all of them.
pub record OthersStep (role : Role) (env : Env) : Type 0 where
  pub moves : (w : World) → IsTable 0 w.sockets → Fair role w → Reach role w (env.interfere w)
  pub truthful : (role.free ≡ true) ⊎ Truthful role env

-- What was reached from `w`, on a table as it should be.
pub record ReachedFrom (role : Role) (w u : World) : Type 0 where
  pub reach : Reach role w u
  pub table : IsTable 0 u.sockets
  pub fair : Fair role u

module _ {role : Role} where
  pub Reach-Fair : {w u : World} → Fair role w → Reach role w u → Fair role u
  Reach-Fair f here = f
  Reach-Fair f (next r s) = Step-Fair (Reach-Fair f r) s

  IsInductive-ReachedFrom : (w : World) → IsInductive role (ReachedFrom role w)
  IsInductive-ReachedFrom w = record {
    step = λ v u p s. record {
      reach = next p.reach s;
      table = Step-IsTable p.table s;
      fair = Step-Fair p.fair s;
    };
    table = λ v p. p.table;
  }

  pub steps-Rely :
      {env : Env} (w : World) → OthersStep role env → Rely role (ReachedFrom role w) env
  steps-Rely w others = record {
    inv = IsInductive-ReachedFrom w;
    interfere = λ v p.
        let r = others.moves v p.table p.fair in
        record {
          reach = Reach-trans p.reach r;
          table = Reach-IsTable p.table r;
          fair = Reach-Fair p.fair r;
        };
    lasts = λ v p. Reach-Lasts (others.moves v p.table p.fair);
    truthful = others.truthful;
  }

module _ {role : Role} {env : Env} (others : OthersStep role env) where
  -- Where the other threads move by steps of the program, whatever piece of its code a thread runs,
  -- from a table of sockets as it should be, what has happened when it ends, however it ends, is a
  -- sequence of such steps. In these, the session is opened only if the thread for reading is among
  -- them, as it is where the piece is the body of `read_thread`. Where not all threads are free,
  -- the state is in order at first, the piece is none of the client but `SFTP::connect`, behind a
  -- call of `libssh2_session_init`, and if it is `read_thread`, it runs in the thread for reading,
  -- which was started; and each call is behind the stage that it needs.
  pub run_code-Reach :
      (c : Code) (w : World)
      → Fits role env c
      → Ready role c w
      → IsTable 0 w.sockets
      → Fair role w
      → Reach role w (left_by (run_code env c w))
  run_code-Reach c w fits past is fair =
      let k = Rely-and (steps-Rely w others) (Ready-IsLasting role c) in
      ((run_code-Preserves k (λ call v ((p, _), o). Fair-Past role v p.fair o (needed (ssh call))) c
          fits (λ v (p, r). r)).run
        w (record { reach = here; table = is; fair = fair }, past)).0.reach
