-- ===== src/Net/Waiting.antt =====
-- `select` on the sets that FD_SET makes, and `send` under flow control.
use power_boot.Prelude.{
  ℕ, zero, suc, ◌/◌, ◌%◌, ◌^◌, ◌≤◌, ◌<◌, ◌≡◌, refl, Bool, true, false, Option, some, [], ◌∷◌, arith,
  length, ◌==◌,
}
use power_boot.Prelude.Bits.{zero-bit_or}
use power_boot.Prelude.Text.{Text}
use power_boot.World.{World, lookup, update}
use power_boot.World.Sockets.{Socket}
use power_boot.World.Calls.{OtCall, OtReply}
use power_boot.Effects.{
  and_then, Env, Run, done, thrown, stopped, spinning, undefined, M, ◌>>=◌, ◌>>◌, deref, modify,
  yield, ot_call, yield_while, at,
}
use power_boot.Effects.Keeps.{
  Table, Pred, Post, Meets, Respects, Meets-yield, Meets-printf, Meets-bind, Meets-deref,
  Meets-pure, Meets-ot_reply,
}
use power_boot.Effects.Steps.{yield-done_at, then-done, at-done, modify-done}
use power_boot.Net.{is_flow, sent, request, send, select_on, select}
use power_boot.Net.FdSets.{FdSet, fd_zero, fd_set, first_word}
use power_boot.Net.Table.{IsTable, IsTable-none}
use native.Mathlib.Nat.{pow-suc}

-- The first word of the set that holds one descriptor is a bit, not the descriptor.
first_word-fd_set : (d : ℕ) → d < 32 → first_word (fd_set d fd_zero) ≡ 2 ^ d
unfolding first_word fd_set fd_zero
first_word-fd_set d h =
    let zeroth : d / 32 ≡ 0 = omega arith in
    let itself : d % 32 ≡ d = omega arith in rw (zeroth, itself) (zero-bit_or (2 ^ d))

lt-pow : (d : ℕ) → d < 2 ^ d
lt-pow zero = omega arith
lt-pow (suc d) = omega (arith, lt-pow d, pow-suc 2 d)

-- `select` for reading on the set of one socket `sock` below 32 throws on a table as it should be
-- of at most 2 ^ sock sockets: it looks for the socket 2 ^ sock.
pub select-thrown :
    (env : Env) (fuel sock : ℕ) (writefds : Option FdSet) (w : World)
    → sock < 32
    → IsTable 0 w.sockets
    → length w.sockets ≤ 2 ^ sock
    → select env fuel (some (fd_set sock fd_zero)) writefds w ≡ thrown w
unfolding select select_on at ◌>>=◌ ◌>>◌
select-thrown env fuel sock writefds w small is few =
    rw (first_word-fd_set sock small, at, IsTable-none is few)

abbrev pub Spins : {A : Type 0} → Run A → Type 0
Spins (spinning w) = Unit
Spins _ = ⊥

-- `m` outlasts its fuel, wherever it starts in `P`.
record Loops {A : Type 0} (P : Pred) (m : M A) : Type 0 where
  run : (w : World) → P w.sockets → Spins (m w)

module _ {P : Pred} where
  Loops-bind :
      {A B : Type 0} {Q : A → Pred} (m : M A) (f : A → M B)
      → Meets P (λ _. ⊥) Q m
      → ((a : A) (t : Table) → Q a t → Loops P (f a))
      → Loops P (m >>= f)
  unfolding ◌>>=◌
  Loops-bind {A} {B} {Q} m f km kf = record { run = λ w p. after (m w) (km.run w p) }
    where
      after : (r : Run A) → Post P (λ _. ⊥) Q r → Spins (and_then r f)
      after (done a w) h = (kf a w.sockets h.1).run w h.0
      after (thrown w) h = absurd h
      after (stopped w) h = absurd h
      after (spinning w) h = tt
      after (undefined w) h = absurd h

  Loops-then :
      {A B : Type 0} {Q : A → Pred} (m : M A) (n : M B)
      → Meets P (λ _. ⊥) Q m
      → Loops P n
      → Loops P (m >> n)
  unfolding ◌>>◌
  Loops-then m n km kn = Loops-bind m (λ _. n) km (λ _ _ _. kn)

  Loops-first : {A B : Type 0} (m : M A) (n : M B) → Loops P m → Loops P (m >> n)
  unfolding ◌>>◌ ◌>>=◌
  Loops-first {A} m n km = record { run = λ w p. after (m w) (km.run w p) }
    where
      after : (r : Run A) → Spins r → Spins (and_then r (λ _. n))
      after (done a w) h = absurd h
      after (thrown w) h = absurd h
      after (stopped w) h = absurd h
      after (spinning w) h = tt
      after (undefined w) h = absurd h

  Loops-yield_while :
      (env : Env) (fuel : ℕ) (test : M Bool)
      → Respects P env
      → Meets P (λ _. ⊥) (λ b _. b ≡ true) test
      → Loops P (yield_while env fuel test)
  unfolding yield_while
  Loops-yield_while env zero test r kt = record { run = λ w p. tt }
  Loops-yield_while env (suc fuel) test r kt =
      let rest = Loops-yield_while env fuel test r kt in
      Loops-bind test _ kt λ b t e. rw e (Loops-then (yield env) _ (Meets-yield env r) rest)

abbrev HasEntry : ℕ → Pred
HasEntry fd t = (s : Socket) × (lookup fd t ≡ some s)

abbrev IsHalted : ℕ → Pred
IsHalted fd t = (s : Socket) × (lookup fd t ≡ some s) × (s.send_halt ≡ true)

lookup-update_self :
    (fd : ℕ) (f : Socket → Socket) (t : Table) (s : Socket)
    → lookup fd t ≡ some s
    → lookup fd (update fd f t) ≡ some (f s)
unfolding lookup update
lookup-update_self fd f [] s e = cc
lookup-update_self fd f ((j, r) ∷ t) s e = ground (arith, lookup-update_self fd f t s)

module _ (env : Env) (fd : ℕ) (halted : Respects (IsHalted fd) env)
    (entry : Respects (HasEntry fd) env) (buf : Text)
    (flow : (w : World) (endpoint : Option ℕ)
      → is_flow (env.ot_reply w (OtCall.snd endpoint buf)).result ≡ true) where
  sent-Loops :
      (fuel : ℕ) (a : OtReply)
      → is_flow a.result ≡ true
      → Loops (IsHalted fd) (sent env fuel fd buf a)
  unfolding sent
  sent-Loops fuel a e = rw e (
      Loops-then _ _ (Meets-printf env halted _) (
        Loops-first _ _ (
          Loops-yield_while env fuel _ halted (
            Meets-bind (deref fd) _ (Meets-deref fd (λ s. s.send_halt ≡ true) (λ t h. h))
              λ s t on. Meets-pure s.send_halt (λ _ _. on)))))

  request-Spins : (fuel : ℕ) (w : World) → HasEntry fd w.sockets → Spins (request env fuel fd buf w)
  unfolding request
  request-Spins fuel w (s, e) =
      rw
        (then-done (modify fd (λ s. record s { send_halt = true })) _ w
          (modify-done fd (λ s. record s { send_halt = true }) w s e))
        (asked.run _
          (_, lookup-update_self fd (λ s. record s { send_halt = true }) w.sockets s e, refl))
    where
      asked : Loops (IsHalted fd) (
          deref fd >>= λ s. ot_call env (OtCall.snd s.endpoint buf) >>= λ r. sent env fuel fd buf r)
      asked =
          Loops-bind (deref fd) _ (Meets-deref fd (λ s. s.send_halt ≡ true) (λ t h. h)) λ s t on.
            Loops-bind _ _ (Meets-ot_reply env (OtCall.snd s.endpoint buf))
              λ a _ (w, g). sent-Loops fuel a (rw g (flow w s.endpoint))

  -- Where Open Transport answers every such request with kOTFlowErr, and other threads keep the
  -- socket in the table and its `send_halt` where that is set, and spare this one, `send` of a
  -- non-empty buffer outlasts every fuel.
  pub send-Spins :
      (fuel : ℕ) (w : World)
      → (length buf == 0) ≡ false
      → HasEntry fd w.sockets
      → Spins (send env fuel fd buf w)
  unfolding send
  send-Spins fuel w some_bytes (s, e) =
      rw
        (
          then-done (at fd) _ w (at-done fd w s e),
          then-done (yield env) _ w (yield-done_at env w (entry.resumes _ (s, e))),
          some_bytes,
        )
        (request-Spins fuel _ (entry.interfere _ (s, e)))
