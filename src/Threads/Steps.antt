-- ===== src/Threads/Steps.antt =====
-- What lasts over one step of one thread, and over any steps of all threads in any order.
use power_boot.Prelude.{ℕ, ◌≡◌, refl, ◌∙◌, false, [], ◌∷◌, arith}
use power_boot.World.{World, lookup}
use power_boot.Net.Table.{IsTable, IsTable-le, IsTable-update, IsTable-insert}
use power_boot.Threads.{
  Role, write, set_open, Step, yielded, printed, called, disposed, finished, inserted, wrote,
  assigned, Reach, here, next,
}
use power_boot.Threads.Lasting.{
  IsKept, IsKept-refl, IsSameClient, IsSameClient-refl, Grows-refl, logs, HasGrown, HasGrown-refl,
  Lasts, Lasts-refl, Lasts-trans,
}
use power_boot.Threads.Kept.{
  write-IsSameSocket, write-KeepsQuiet, update-IsKept, insert-IsKept, assign-IsSameClient,
}

pub Step-IsTable :
    {role : Role} {n : ℕ} {w u : World} → IsTable n w.sockets → Step role w u → IsTable n u.sockets
Step-IsTable is yielded = is
Step-IsTable is (printed s) = is
Step-IsTable is (called c may) = is
Step-IsTable is (disposed t) = is
Step-IsTable is (finished b) = is
Step-IsTable is (inserted s q) = IsTable-le (omega (arith, is.enough)) (
    IsTable-insert is _ refl
      (record { no_halt = q.no_halt; no_recv = q.no_recv; no_send = q.no_send }))
Step-IsTable is (wrote fd c) = IsTable-update fd (write c) (write-KeepsQuiet c) is
Step-IsTable is (assigned a may) = is

-- No step, of whatever thread, takes a socket out of the table, sets `recv_halt` or stores bytes.
pub Reach-IsTable :
    {role : Role} {n : ℕ} {w u : World} → IsTable n w.sockets → Reach role w u → IsTable n u.sockets
Reach-IsTable is here = is
Reach-IsTable is (next r s) = Step-IsTable (Reach-IsTable is r) s

Step-sockets :
    {role : Role} {w u : World}
    → Step role w u
    → (fd : ℕ) → IsKept (lookup fd w.sockets) (lookup fd u.sockets)
Step-sockets {w} yielded fd = IsKept-refl (lookup fd w.sockets)
Step-sockets {w} (printed s) fd = IsKept-refl (lookup fd w.sockets)
Step-sockets {w} (called c may) fd = IsKept-refl (lookup fd w.sockets)
Step-sockets {w} (disposed t) fd = IsKept-refl (lookup fd w.sockets)
Step-sockets {w} (finished b) fd = IsKept-refl (lookup fd w.sockets)
Step-sockets {w} (inserted s q) fd = insert-IsKept _ fd _ w.sockets
Step-sockets {w} (wrote k c) fd = update-IsKept k fd (write c) w.sockets (write-IsSameSocket c)
Step-sockets {w} (assigned a may) fd = IsKept-refl (lookup fd w.sockets)

Step-IsSameClient : {role : Role} {w u : World} → Step role w u → IsSameClient w.sftp u.sftp
Step-IsSameClient {w} yielded = IsSameClient-refl w.sftp
Step-IsSameClient {w} (printed s) = IsSameClient-refl w.sftp
Step-IsSameClient {w} (called c may) = IsSameClient-refl w.sftp
Step-IsSameClient {w} (disposed t) = IsSameClient-refl w.sftp
Step-IsSameClient {w} (finished b) = IsSameClient-refl w.sftp
Step-IsSameClient {w} (inserted s q) = IsSameClient-refl w.sftp
Step-IsSameClient {w} (wrote k c) = IsSameClient-refl w.sftp
Step-IsSameClient {w} (assigned a may) = assign-IsSameClient a w.sftp

Step-HasGrown : {role : Role} {w u : World} → Step role w u → HasGrown (logs w) (logs u)
Step-HasGrown {w} yielded = record {
  ended = Grows-refl w.ended;
  trace = Grows-refl w.trace;
  stdout = Grows-refl w.stdout;
  ticks = omega arith;
}
Step-HasGrown {w} (printed s) = record {
  ended = Grows-refl w.ended;
  trace = Grows-refl w.trace;
  stdout = (s ∷ [], refl);
  ticks = omega arith;
}
Step-HasGrown {w} (called c may) = record {
  ended = Grows-refl w.ended;
  trace = (c ∷ [], refl);
  stdout = Grows-refl w.stdout;
  ticks = omega arith;
}
Step-HasGrown {w} (disposed t) = record {
  ended = (t ∷ [], refl);
  trace = Grows-refl w.trace;
  stdout = Grows-refl w.stdout;
  ticks = omega arith;
}
Step-HasGrown {w} (finished b) = HasGrown-refl (logs w)
Step-HasGrown {w} (inserted s q) = HasGrown-refl (logs w)
Step-HasGrown {w} (wrote k c) = HasGrown-refl (logs w)
Step-HasGrown {w} (assigned a may) = HasGrown-refl (logs w)

pub Step-Lasts : {role : Role} {w u : World} → Step role w u → Lasts w u
Step-Lasts s = record {
  sockets = Step-sockets s;
  client = Step-IsSameClient s;
  grown = Step-HasGrown s;
}

-- Steps of any threads, in any order.
pub Reach-Lasts : {role : Role} {w u : World} → Reach role w u → Lasts w u
Reach-Lasts {w} here = Lasts-refl w
Reach-Lasts (next r s) = Lasts-trans (Reach-Lasts r) (Step-Lasts s)

pub Reach-trans : {role : Role} {v w u : World} → Reach role v w → Reach role w u → Reach role v u
Reach-trans r here = r
Reach-trans r (next s t) = next (Reach-trans r s) t

-- Without the thread for reading nothing becomes of the session.
Step-state :
    {role : Role} {w u : World}
    → role.reads ≡ false
    → Step role w u
    → u.sftp.read_thread_state ≡ w.sftp.read_thread_state
Step-state idle yielded = refl
Step-state idle (printed s) = refl
Step-state idle (called c may) = refl
Step-state idle (disposed t) = refl
Step-state idle (finished b) = refl
Step-state idle (inserted s q) = refl
Step-state idle (wrote fd c) = refl
Step-state idle (assigned set_open (reads, behind)) = absurd (cc (idle, reads))
Step-state idle (assigned _ may) = refl

pub Reach-state :
    {role : Role} {w u : World}
    → role.reads ≡ false
    → Reach role w u
    → u.sftp.read_thread_state ≡ w.sftp.read_thread_state
Reach-state idle here = refl
Reach-state idle (next r s) = Step-state idle s ∙ Reach-state idle r
