-- ===== src/Main.antt =====
-- src/main.cpp, in the build for Classic Mac OS: `main`, which starts the thread of `main_func`,
-- and that function, which lists a directory.
pub mod Listing
use power_boot.Prelude.{ℕ, zero, suc, Option, none, some, List, [], ◌∷◌, ◌++◌}
use power_boot.Prelude.Text.{Text, codes, c_str}
use power_boot.World.{World}
use power_boot.World.Calls.{main_thread}
use power_boot.Effects.{
  Env, Run, done, thrown, stopped, spinning, undefined, M, ◌>>=◌, ◌>>◌, skip, get, yield, printf,
  new_thread_of,
}
use power_boot.Transfer.{File, TransferProtocol}
use power_boot.Sftp.Protocol.{sftp_protocol}
use power_boot.Sftp.Session.{new_session}

module _ (env : Env) where
  -- `main` between the calls of the memory manager and `MacMain`.
  unfoldable pub main : M (Unit {0})
  main = do
    new_thread_of env main_thread
    w ← get
    elim (env.thread_error w) [
      | none ↦ skip
      | some err ↦ printf env (codes "Failed to create main thread: " ++ err)
    ]

  -- `try { m } catch …`: what the program throws itself is the exception of `at`, for which the
  -- second handler stands.
  unfoldable pub catching : M (Unit {0}) → M (Unit {0})
  catching m w = elim (m w) [
    | done a w' ↦ done a w'
    | thrown w' ↦ printf env (codes "Unhandled Exception: " ++ env.out_of_range ++ codes "\n") w'
    | stopped w' ↦ stopped w'
    | spinning w' ↦ spinning w'
    | undefined w' ↦ undefined w'
  ]

  -- The body of the `for`. The size has 64 bits and is printed by `%ld`, which reads 32 of them
  -- where `long` has 32 bits, so that `%s` takes the rest for a pointer: what the C library then
  -- writes, if anything, is `size_line`.
  unfoldable pub show_file : TransferProtocol → File → M (Unit {0})
  show_file sftp file = do
    attr ← sftp.stat file.buffer
    yield env
    elim attr [
      | none ↦ printf env (c_str file.buffer ++ codes "\n")
      | some a ↦ (elim (env.size_line a.filesize (c_str file.buffer)) [
        | none ↦ undefined
        | some line ↦ printf env line
      ])
    ]
    yield env

  -- The `for` over the entries, from the one at hand.
  unfoldable pub list_loop : ℕ → TransferProtocol → ℕ → Option File → M (Unit {0})
  list_loop zero sftp dir file = spinning
  list_loop (suc fuel) sftp dir file = elim file [
    | none ↦ skip
    | some f ↦ (do show_file sftp f; next ← sftp.dirs.next dir; list_loop fuel sftp dir next)
  ]

  -- The `try` block behind `new SFTP()`, on any protocol.
  unfoldable pub list_directory : ℕ → TransferProtocol → M (Unit {0})
  list_directory fuel sftp = do
    yield env
    yield env
    sftp.connect
    yield env
    dir ← sftp.opendir (codes ".")
    yield env
    file ← sftp.dirs.next dir
    yield env
    list_loop fuel sftp dir file
    sftp.dirs.close dir
    yield env

  -- The `try` block. The options are handed on to `read_thread`, in the other thread.
  unfoldable pub list_home : ℕ → M (Unit {0})
  list_home fuel = do new_session env; list_directory fuel (sftp_protocol env fuel)

  unfoldable pub main_func : ℕ → M (Unit {0})
  main_func fuel = do
    printf env (codes "Starting PowerBoot...\n")
    yield env
    catching (list_home fuel)
