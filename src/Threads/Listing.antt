-- ===== src/Threads/Listing.antt =====
-- src/main.cpp in steps of the shared state.
use power_boot.Prelude.{refl, ℕ, zero, suc, Option, some, ◌++◌}
use power_boot.Prelude.Text.{Text, codes}
use power_boot.World.{World}
use power_boot.Threads.{created, Role}
use power_boot.Effects.{
  Env, Run, done, thrown, stopped, spinning, undefined, M, ◌>>=◌, ◌>>◌, get, yield, printf,
}
use power_boot.Effects.Steps.{left_by}
use power_boot.Transfer.{File, TransferProtocol}
use power_boot.Sftp.Protocol.{sftp_protocol}
use power_boot.Main.{main, catching, show_file, list_loop, list_directory, list_home, main_func}
use power_boot.Threads.Stages.{Past-IsLasting, Opened, Opened-IsLasting, Preserves-behind_then}
use power_boot.Threads.Rules.{
  Rely, Rely-and, Preserves, Preserves-pure, Preserves-undefined, Preserves-bind, Preserves-then,
  Preserves-skip, Preserves-option, Preserves-get, Preserves-spinning,
}
use power_boot.Threads.Calls.{Preserves-yield, Preserves-printf, Preserves-free_thread, preserving}
use power_boot.Threads.Session.{new_session-Leads, connect-Leads}
use power_boot.Threads.Client.{
  Asks, opendir-Preserves, stat-Preserves, dir_next-Preserves, dir_close-Preserves,
}

-- What the listing asks of a protocol, once it has connected.
record IsKeeping (P : World → Type 0) (sftp : TransferProtocol) : Type 0 where
  stat : (path : Text) → Preserves P (sftp.stat path)
  opendir : (path : Text) → Preserves P (sftp.opendir path)
  next : (dir : ℕ) → Preserves P (sftp.dirs.next dir)
  close : (dir : ℕ) → Preserves P (sftp.dirs.close dir)

module _ {role : Role} {P : World → Type 0} {env : Env} (k : Rely role P env) where
  -- The listing, over any protocol that keeps `P`.
  module _ {sftp : TransferProtocol} (ops : IsKeeping P sftp) where
    show_file-Preserves : (file : File) → Preserves P (show_file env sftp file)
    unfolding show_file
    show_file-Preserves file = Preserves-bind _ _ (ops.stat file.buffer) λ attr.
        Preserves-then _ _ (Preserves-yield k) (
          Preserves-then _ _
            (Preserves-option attr (Preserves-printf k _)
              λ a. Preserves-option _ Preserves-undefined λ line. Preserves-printf k line)
            (Preserves-yield k))

    list_loop-Preserves :
        (fuel dir : ℕ) (file : Option File) → Preserves P (list_loop env fuel sftp dir file)
    unfolding list_loop
    list_loop-Preserves zero dir file = Preserves-spinning
    list_loop-Preserves (suc fuel) dir file = Preserves-option file Preserves-skip λ f.
        Preserves-then _ _ (show_file-Preserves f)
          (Preserves-bind _ _ (ops.next dir) λ next. list_loop-Preserves fuel dir next)

    -- The listing behind `connect`.
    listed-Preserves :
        (fuel : ℕ)
        → Preserves P (do
          yield env
          dir ← sftp.opendir (codes ".")
          yield env
          file ← sftp.dirs.next dir
          yield env
          list_loop env fuel sftp dir file
          sftp.dirs.close dir
          yield env)
    listed-Preserves fuel =
        search (preserving, ops.opendir, ops.next, ops.close, list_loop-Preserves) depth 20

  sftp-IsKeeping : Asks role P → (fuel : ℕ) → IsKeeping P (sftp_protocol env fuel)
  sftp-IsKeeping asks fuel = record {
    stat =
        λ path. Preserves-bind _ _ (stat-Preserves k asks fuel path) λ a. Preserves-pure (some a);
    opendir = opendir-Preserves k asks fuel;
    next = dir_next-Preserves k asks fuel;
    close = dir_close-Preserves k asks fuel;
  }

module _ {role : Role} {P : World → Type 0} {env : Env} (k : Rely role P env) where
  -- The directory is listed behind `connect`, with the session open.
  list_home-Preserves :
      Asks role (λ w. P w × Opened w) → (fuel : ℕ) → Preserves P (list_home env fuel)
  unfolding list_home list_directory
  list_home-Preserves asks fuel =
      let l = Rely-and k (Past-IsLasting role (some created)) in
      Preserves-behind_then _ _ (new_session-Leads k) (
        Preserves-then _ _ (Preserves-yield l) (
          Preserves-then _ _ (Preserves-yield l) (
            Preserves-behind_then _ _ (connect-Leads l (λ w (p, q). q) fuel) (
              let m = Rely-and l Opened-IsLasting in
              listed-Preserves m (sftp-IsKeeping m (λ c w ((p, _), o). asks c w (p, o)) fuel)
                fuel))))

  catching-Preserves : (m : M (Unit {0})) → Preserves P m → Preserves P (catching env m)
  unfolding catching
  catching-Preserves m km = record { run = λ w p. from (m w) (km.run w p) }
    where
      from :
          (r : Run (Unit {0}))
          → P (left_by r)
          → P (
              left_by (elim r [
                | done a w' ↦ done a w'
                | thrown w' ↦
                    printf env (codes "Unhandled Exception: " ++ env.out_of_range ++ codes "\n") w'
                | stopped w' ↦ stopped w'
                | spinning w' ↦ spinning w'
                | undefined w' ↦ undefined w'
              ]))
      from (done a w) h = h
      from (thrown w) h = (Preserves-printf k _).run w h
      from (stopped w) h = h
      from (spinning w) h = h
      from (undefined w) h = h

  pub main_func-Preserves :
      Asks role (λ w. P w × Opened w) → (fuel : ℕ) → Preserves P (main_func env fuel)
  unfolding main_func catching
  main_func-Preserves asks fuel =
      search (preserving, list_home-Preserves, catching-Preserves) depth 10

  pub main-Preserves : Preserves P (main env)
  unfolding main
  main-Preserves = Preserves-then _ _ (Preserves-free_thread k _ refl) (
      Preserves-bind get _ Preserves-get
        λ w. Preserves-option (env.thread_error w) Preserves-skip λ err. Preserves-printf k _)
