-- ===== src/Effects.antt =====
-- Code that runs in one thread over the shared state. Threads are cooperative: another one runs
-- only at a `YieldToAnyThread`, or inside a foreign call that yields.
pub mod Keeps
pub mod Steps
pub mod Waiting
use power_boot.Prelude.{
  ℕ, zero, suc, ◌+◌, Bool, true, false, Option, none, some, List, [], ◌∷◌, ◌++◌, ◌==◌,
  if◌then◌else◌,
}
use power_boot.Prelude.Text.{Text, codes, show}
use power_boot.Errors.{OsErr, error_name, buffer_255, report}
use power_boot.World.{World, lookup, update, insert}
use power_boot.World.Sockets.{Socket}
use power_boot.World.Session.{Sftp}
use power_boot.World.Calls.{
  Thread, main_thread, read_thread, connect_thread, other_thread, OtCall, OtReply, OtResult, count,
  error, SshCall, SshReply, Call, ot, ssh, new_thread,
}

-- What the code finds around it: the thread that runs it, the replies of the foreign code, which
-- may depend on all that has happened, what other threads do while this one yields, and whether it
-- then goes on.
pub record Env : Type 0 where
  pub me : Thread
  pub ot_reply : World → OtCall → OtReply
  pub ssh_reply : World → SshCall → SshReply
  pub interfere : World → World
  pub resumes : World → Bool  -- whether this thread goes on: not if another has disposed of it
  pub err_text : OsErr → Text  -- `%d` of an error code
  pub again_text : Text  -- `%d` of LIBSSH2_ERROR_EAGAIN
  pub thread_error : World → Option Text  -- `%d` of a negative result of `NewThread`
  pub directions : World → Bool × Bool  -- the bits in the local variable `dir` of `SFTP::wait`
  pub out_of_range : Text  -- `what()` of the exception of `at`
  pub fresh : World → ℕ → ℕ  -- the bytes of new memory, which nothing clears
  pub size_line : ℕ → Text → Option Text  -- the line of `printf` for a file with a size
  pub source_root : Text  -- what `__FILE__` has before the path in the repository

-- How a piece of code ends: with a value; by a C++ exception (`std::out_of_range` of `at`); with
-- its own thread disposed of; in a loop that outlasts the fuel; or in an access that C++ leaves
-- undefined (an empty optional, a null object, the bytes behind a buffer).
pub data Run (A : Type 0) : Type 0 where
  done : A → World → Run A
  thrown : World → Run A
  stopped : World → Run A
  spinning : World → Run A
  undefined : World → Run A

abbrev pub M : Type 0 → Type 0
M A = World → Run A

unfoldable pub pure : {A : Type 0} → A → M A
pure a w = done a w

module _ {A B : Type 0} where
  abbrev pub and_then : Run A → (A → M B) → Run B
  and_then (done a w) k = k a w
  and_then (thrown w) k = thrown w
  and_then (stopped w) k = stopped w
  and_then (spinning w) k = spinning w
  and_then (undefined w) k = undefined w

  infixl 5 ◌>>=◌ ◌>>◌
  unfoldable pub ◌>>=◌ : M A → (A → M B) → M B
  m >>= k = λ w. and_then (m w) k

  unfoldable pub ◌>>◌ : M A → M B → M B
  m >> n = m >>= λ _. n

unfoldable pub skip : M (Unit {0})
skip = pure tt

unfoldable pub get : M World
get w = done w w

unfoldable pub put_sftp : (Sftp → Sftp) → M (Unit {0})
put_sftp f w = done tt (record w { sftp = f w.sftp })

unfoldable pub put_finished : Bool → M (Unit {0})
put_finished b w = done tt (record w { finished = b })

-- `openSockets.at(fd)`
unfoldable pub at : ℕ → M Socket
at fd w = elim (lookup fd w.sockets) [ none ↦ thrown w | some s ↦ done s w ]

-- A read of `*s` later on, through the pointer that `at` gave.
unfoldable pub deref : ℕ → M Socket
deref fd w = elim (lookup fd w.sockets) [ none ↦ undefined w | some s ↦ done s w ]

-- A write to `*s`.
unfoldable pub modify : ℕ → (Socket → Socket) → M (Unit {0})
modify fd f w = elim (lookup fd w.sockets) [
  | none ↦ undefined w
  | some s ↦ done tt (record w { sockets = update fd f w.sockets })
]

unfoldable pub insert_socket : ℕ → Socket → M (Unit {0})
insert_socket fd s w = done tt (record w { sockets = insert fd s w.sockets })

abbrev pub same_thread : Thread → Thread → Bool
same_thread main_thread main_thread = true
same_thread read_thread read_thread = true
same_thread connect_thread connect_thread = true
same_thread other_thread other_thread = true
same_thread _ _ = false

module _ (env : Env) where
  -- Behind a turn of the other threads.
  unfoldable pub resume : {A : Type 0} → A → M A
  resume a w = if env.resumes w then done a w else stopped w

  -- `YieldToAnyThread`
  unfoldable pub yield : M (Unit {0})
  yield w = resume tt (env.interfere (record w { ticks = suc w.ticks }))

  unfoldable pub ot_call : OtCall → M OtReply
  ot_call c w = done (env.ot_reply w c) (record w { trace = ot c ∷ w.trace })

  -- libssh2 sends and receives through the sockets, and so other threads may run.
  unfoldable pub ssh_call : SshCall → M SshReply
  ssh_call c w = resume (env.ssh_reply w c) (env.interfere (record w { trace = ssh c ∷ w.trace }))

  -- The write behind `printf` ends in a yield.
  unfoldable pub printf : Text → M (Unit {0})
  printf s w = yield (record w { stdout = s ∷ w.stdout })

  -- `NewThread` makes the thread ready; it first runs when this one yields.
  unfoldable pub new_thread_of : Thread → M (Unit {0})
  new_thread_of t w = done tt (record w { trace = new_thread t ∷ w.trace })

  -- `DisposeThread`, which does not return to a thread that disposes of itself.
  unfoldable pub dispose_thread : Thread → M (Unit {0})
  dispose_thread t w =
      let w' : World = record w { ended = t ∷ w.ended } in
      if same_thread env.me t then stopped w' else done tt w'

  -- `mac_error_throw` on a formatted text: it returns, unless it runs in the main thread.
  unfoldable pub mac_error_throw : Text → M (Unit {0})
  mac_error_throw s = do printf (buffer_255 s ++ codes "\n"); dispose_thread main_thread; yield

  -- `ThrowOSErr(err)` at `file`:`line`, with `func` the text of its argument.
  unfoldable pub throw_os_err : Text → ℕ → Text → OsErr → M (Unit {0})
  throw_os_err file line func err = elim (error_name err) [
    | none ↦ skip
    | some name ↦ mac_error_throw (report func file (show line) name)
  ]

  -- A result of Open Transport handed to `ThrowOSErr`. A count has no `case`.
  unfoldable pub throw_result : Text → ℕ → Text → OtResult → M (Unit {0})
  throw_result file line func (count n) = skip
  throw_result file line func (error e) = throw_os_err file line func e

  -- `while (test) YieldToAnyThread();` with fuel for that many tests
  unfoldable pub yield_while : ℕ → M Bool → M (Unit {0})
  yield_while zero test = spinning
  yield_while (suc fuel) test =
      test >>= λ b. elim b [ true ↦ yield >> yield_while fuel test | false ↦ skip ]
