-- ===== src/Net/Buffered.antt =====
-- `recv` where Open Transport has no data, call by call: the bytes that the notifier has stored in
-- the socket go to the reader, once.
use power_boot.Prelude.{
  ℕ, suc, ◌-◌, ◌≤◌, ◌≡◌, refl, ap, ◌∙◌, true, false, Option, none, some, List, [], ◌∷◌, ◌++◌,
  length, replicate, length-replicate, take-all, drop-replicate, leb, arith, ◌==◌, Bool-cases, inl,
  inr, if◌then◌else◌,
}
use power_boot.Prelude.Text.{Text, codes, show, joined}
use power_boot.World.{World, lookup, update}
use power_boot.World.Sockets.{Socket, flatten-joined}
use power_boot.World.Calls.{OtCall, OtReply, OtResult, count, ot}
use power_boot.Effects.{
  Env, done, M, pure, ◌>>=◌, ◌>>◌, skip, at, deref, modify, yield, ot_call, printf, yield_while,
  undefined,
}
use power_boot.Effects.Steps.{
  Resumes, yield-done, printf-done, bind-done, then-done, at-done, modify-done,
}
use power_boot.Net.{is_no_data, overlay, deliver, received, recv}

pub overlay-padded :
    (n : ℕ) (bytes : Text)
    → length bytes ≤ n
    → overlay (replicate n 0) bytes ≡ bytes ++ replicate (n - length bytes) 0
unfolding overlay
overlay-padded n bytes h =
    rw (length-replicate {0} {A = ℕ} n 0, take-all n bytes h)
      (ap (λ t. bytes ++ t) (drop-replicate (length bytes) n 0))

-- The socket `s` is under `fd`.
abbrev pub Holds : ℕ → Socket → World → Type 0
Holds fd s w = lookup fd w.sockets ≡ some s

abbrev image : (Socket → Socket) → Option Socket → Option Socket
image f none = none
image f (some s) = some (f s)

lookup-update :
    (fd : ℕ) (f : Socket → Socket) (t : List (ℕ × Socket))
    → lookup fd (update fd f t) ≡ image f (lookup fd t)
unfolding lookup update
lookup-update fd f [] = refl
lookup-update fd f ((j, r) ∷ t) = elim (Bool-cases (j == fd)) [
  | inl h ↦ rw h refl
  | inr h ↦ rw h (lookup-update fd f t)
]

deref-done : (fd : ℕ) (w : World) (s : Socket) → Holds fd s w → deref fd w ≡ done s w
unfolding deref
deref-done fd w s e = rw (e, deref)

-- The other threads leave the table of sockets alone, and spare this one.
pub record LeavesSockets (env : Env) : Type 0 where
  pub same : (w : World) → (env.interfere w).sockets ≡ w.sockets
  pub resumes : Resumes env

-- What `deliver` makes of a socket.
abbrev pub drained : Socket → Socket
drained s = record s { recv_buf = [] }

abbrev pub delivered : ℕ → Text → OtResult × Text
delivered nbytes fin = (count (length fin), fin ++ replicate (nbytes - length fin) 0)

module _ (env : Env) where
  -- Behind a `printf`, behind the yield of `recv`, and behind its call of OTRcv and the `printf`
  -- that follows.
  abbrev said : Text → World → World
  said t w = env.interfere (record w { stdout = t ∷ w.stdout; ticks = suc w.ticks })

  abbrev turned : World → World
  turned w = env.interfere (record w { ticks = suc w.ticks })

  abbrev wanted : ℕ → Socket → World → OtReply
  wanted nbytes s w = env.ot_reply (turned w) (OtCall.rcv s.endpoint nbytes)

  abbrev dry : ℕ → Socket → World → World
  dry nbytes s w =
      let t = turned w in
      said (codes "asked to recv " ++ show nbytes ++ codes " bytes\n")
        (record t { trace = ot (OtCall.rcv s.endpoint nbytes) ∷ t.trace })

module _ (env : Env) (leaves : LeavesSockets env) (fd : ℕ) where
  -- Behind the emptying of the buffer.
  abbrev emptied : World → World
  emptied w = record w { sockets = update fd drained w.sockets }

  hand_over : ℕ → Text → M (OtResult × Text)
  hand_over nbytes fin =
      if leb (length fin) nbytes
      then (do
        modify fd drained
        printf env (codes "recv: " ++ show (length fin) ++ codes "\n")
        pure (count (length fin), overlay (replicate nbytes 0) fin))
      else undefined

  hand_over-done :
      (nbytes : ℕ) (fin : Text) (w : World) (s : Socket)
      → Holds fd s w
      → length fin ≤ nbytes
      → hand_over nbytes fin w
        ≡ done
            (delivered nbytes fin)
            (said env (codes "recv: " ++ show (length fin) ++ codes "\n") (emptied w))
  unfolding hand_over pure ◌>>◌ ◌>>=◌
  hand_over-done nbytes fin w s e short =
      let fits : leb (length fin) nbytes ≡ true = ground arith in
      rw
        (
          fits,
          then-done (modify fd drained) _ w (modify-done fd drained w s e),
          overlay-padded nbytes fin short,
          printf-done env leaves.resumes _ (emptied w),
        )
        refl

  deliver-done :
      (nbytes : ℕ) (w : World) (s : Socket)
      → Holds fd s w
      → length (joined s.recv_buf) ≤ nbytes
      → (w' : World) × ((deliver env fd nbytes w ≡ done (delivered nbytes (joined s.recv_buf)) w')
          × Holds fd (drained s) w')
  unfolding deliver hand_over
  deliver-done nbytes w s e short = (
    _,
    (
      bind-done (deref fd) _ w (deref-done fd w s e)
          ∙ ap (λ fin. hand_over nbytes fin w) (flatten-joined s.recv_buf)
          ∙ hand_over-done nbytes (joined s.recv_buf) w s e short,
      ap (lookup fd) (leaves.same _) ∙ lookup-update fd drained w.sockets ∙ ap (image drained) e,
    ),
  )

  Holds-dry : (nbytes : ℕ) (s : Socket) (w : World) → Holds fd s w → Holds fd s (dry env nbytes s w)
  Holds-dry nbytes s w e = ap (lookup fd) (leaves.same _ ∙ leaves.same _) ∙ e

  no_wait :
      (fuel : ℕ) (w : World) (s : Socket)
      → Holds fd s w
      → s.recv_halt ≡ false
      → yield_while env (suc fuel) (deref fd >>= λ s. pure s.recv_halt) w ≡ done tt w
  unfolding yield_while pure skip
  no_wait fuel w s e free =
      bind-done (deref fd >>= λ s. pure s.recv_halt) _ w
        (bind-done (deref fd) _ w (deref-done fd w s e) ∙ ap (λ b. done b w) free)

  received-dry :
      (fuel nbytes : ℕ) (r : OtReply)
      → is_no_data r.result ≡ true
      → received env (suc fuel) fd nbytes r ≡ (
          printf env (codes "asked to recv " ++ show nbytes ++ codes " bytes\n")
          >> (yield_while env (suc fuel) (deref fd >>= λ s. pure s.recv_halt)
              >> deliver env fd nbytes))
  unfolding received
  received-dry fuel nbytes r e = rw e refl

  recv-dry :
      (fuel nbytes : ℕ) (w : World) (s : Socket)
      → Holds fd s w
      → s.recv_halt ≡ false
      → is_no_data (wanted env nbytes s w).result ≡ true
      → recv env (suc fuel) fd nbytes w ≡ deliver env fd nbytes (dry env nbytes s w)
  unfolding recv ot_call
  recv-dry fuel nbytes w s e free none_yet =
      then-done (at fd) _ w (at-done fd w s e)
      ∙ then-done (yield env) _ w (yield-done env leaves.resumes w)
      ∙ bind-done (deref fd) _ (turned env w)
          (deref-done fd (turned env w) s (ap (lookup fd) (leaves.same _) ∙ e))
      ∙ bind-done (ot_call env (OtCall.rcv s.endpoint nbytes)) _ (turned env w) refl
      ∙ ap (λ m. m (asked s)) (received-dry fuel nbytes (wanted env nbytes s w) none_yet)
      ∙ then-done (printf env (codes "asked to recv " ++ show nbytes ++ codes " bytes\n")) _
          (asked s) (printf-done env leaves.resumes _ (asked s))
      ∙ then-done (yield_while env (suc fuel) (deref fd >>= λ s. pure s.recv_halt)) _
          (dry env nbytes s w) (no_wait fuel (dry env nbytes s w) s (Holds-dry nbytes s w e) free)
    where
      asked : Socket → World
      asked s = record (turned env w) {
        trace = ot (OtCall.rcv s.endpoint nbytes) ∷ (turned env w).trace;
      }

-- Where the other threads leave the table of sockets and this one alone, `recv` on an open socket
-- on which no reader is halted, with any fuel but 0, and for which Open Transport has no data,
-- returns all the bytes in the buffer of the socket, in their order and with zeros behind them, if
-- that many were asked for, and leaves the buffer empty and the rest of the socket as it was.
pub recv-drained :
    (env : Env) (fd fuel nbytes : ℕ) (w : World) (s : Socket)
    → LeavesSockets env
    → Holds fd s w
    → s.recv_halt ≡ false
    → is_no_data (wanted env nbytes s w).result ≡ true
    → length (joined s.recv_buf) ≤ nbytes
    → (w' : World) × ((recv env (suc fuel) fd nbytes w
          ≡ done (delivered nbytes (joined s.recv_buf)) w')
        × Holds fd (drained s) w')
recv-drained env fd fuel nbytes w s leaves e free none_yet short =
    let (w', (rest, empty)) =
      deliver-done env leaves fd nbytes (dry env nbytes s w) s
        (Holds-dry env leaves fd nbytes s w e) short in
    (w', (recv-dry env leaves fd fuel nbytes w s e free none_yet ∙ rest, empty))
