-- ===== src/Threads/Rules.antt =====
-- Code that keeps what every step keeps. A predicate of the shared state that no step breaks is
-- kept by the code of a thread, if the other threads keep it whenever this one yields.
use power_boot.Prelude.{ℕ, ◌≡◌, ◌⊎◌, Bool, true, false, Option, none, some, if◌then◌else◌}
use power_boot.World.{World}
use power_boot.World.Calls.{SshCall}
use power_boot.Sftp.{is_zero}
use power_boot.Effects.{
  Env, Run, done, thrown, stopped, spinning, undefined, M, and_then, pure, ◌>>=◌, ◌>>◌, skip, get,
}
use power_boot.Effects.Steps.{left_by}
use power_boot.Net.Table.{IsTable}
use power_boot.Threads.{Role, Step}
use power_boot.Threads.Lasting.{Lasts}
use power_boot.Threads.Steps.{Step-Lasts}

-- No step breaks `P`, which holds only of states whose table of sockets is as it should be.
pub record IsInductive (role : Role) (P : World → Type 0) : Type 0 where
  pub step : (w u : World) → P w → Step role w u → P u
  pub table : (w : World) → P w → IsTable 0 w.sockets

-- What libssh2 replies to this thread agrees with the calls that may come to an end without an
-- error.
pub record Truthful (role : Role) (env : Env) : Type 0 where
  pub handshakes :
      (w : World) (session : Option ℕ) (sock : ℕ)
      → is_zero (env.ssh_reply w (SshCall.handshake session sock)).rc ≡ true
      → role.accepts w.trace (SshCall.handshake session sock) ≡ true
  pub sessions :
      (w : World) (session : Option ℕ) (p : ℕ)
      → (env.ssh_reply w (SshCall.sftp_init session)).pointer ≡ some p
      → role.accepts w.trace (SshCall.sftp_init session) ≡ true

-- ... nor do the other threads, whenever this one yields, and what lasts over steps lasts over
-- their moves.
pub record Rely (role : Role) (P : World → Type 0) (env : Env) : Type 0 where
  pub inv : IsInductive role P
  pub interfere : (w : World) → P w → P (env.interfere w)
  pub lasts : (w : World) → P w → Lasts w (env.interfere w)
  pub truthful : (role.free ≡ true) ⊎ Truthful role env

-- What holds from some state on.
pub record IsLasting (Q : World → Type 0) : Type 0 where
  pub stays : (w u : World) → Lasts w u → Q w → Q u

-- Behind that state.
pub Rely-and :
    {role : Role} {P Q : World → Type 0} {env : Env}
    → Rely role P env
    → IsLasting Q
    → Rely role (λ w. P w × Q w) env
Rely-and k l = record {
  inv = record {
    step = λ w u (p, q) s. (k.inv.step w u p s, l.stays w u (Step-Lasts s) q);
    table = λ w (p, q). k.inv.table w p;
  };
  interfere = λ w (p, q). (k.interfere w p, l.stays w _ (k.lasts w p) q);
  lasts = λ w (p, q). k.lasts w p;
  truthful = k.truthful;
}

-- `m` keeps `P`, however it ends.
pub record Preserves {A : Type 0} (P : World → Type 0) (m : M A) : Type 0 where
  pub run : (w : World) → P w → P (left_by (m w))

module _ {P : World → Type 0} where
  pub Preserves-pure : {A : Type 0} (a : A) → Preserves P (pure a)
  unfolding pure
  Preserves-pure a = record { run = λ w p. p }

  pub Preserves-skip : Preserves P skip
  unfolding skip
  Preserves-skip = Preserves-pure tt

  pub Preserves-get : Preserves P get
  unfolding get
  Preserves-get = record { run = λ w p. p }

  pub Preserves-undefined : {A : Type 0} → Preserves {A = A} P undefined
  Preserves-undefined = record { run = λ w p. p }

  pub Preserves-spinning : {A : Type 0} → Preserves {A = A} P spinning
  Preserves-spinning = record { run = λ w p. p }

  pub Preserves-bind :
      {A B : Type 0} (m : M A) (f : A → M B)
      → Preserves P m
      → ((a : A) → Preserves P (f a))
      → Preserves P (m >>= f)
  unfolding ◌>>=◌
  Preserves-bind {A} {B} m f km kf = record { run = λ w p. after (m w) (km.run w p) }
    where
      after : (r : Run A) → P (left_by r) → P (left_by (and_then r f))
      after (done a w) h = (kf a).run w h
      after (thrown w) h = h
      after (stopped w) h = h
      after (spinning w) h = h
      after (undefined w) h = h

  pub Preserves-then :
      {A B : Type 0} (m : M A) (n : M B) → Preserves P m → Preserves P n → Preserves P (m >> n)
  unfolding ◌>>◌
  Preserves-then m n km kn = Preserves-bind m (λ _. n) km (λ _. kn)

  pub Preserves-if :
      {A : Type 0} (b : Bool) (m n : M A)
      → Preserves P m
      → Preserves P n
      → Preserves P (if b then m else n)
  Preserves-if true m n km kn = km
  Preserves-if false m n km kn = kn

  -- The branches of an `elim`, which wait for the test.
  pub Preserves-cases :
      {A : Type 0} (b : Bool) {m n : M A}
      → Preserves P m
      → Preserves P n
      → Preserves P (elim b [ true ↦ m | false ↦ n ])
  Preserves-cases true km kn = km
  Preserves-cases false km kn = kn

  pub Preserves-option :
      {A B : Type 0} (o : Option B) {m : M A} {f : B → M A}
      → Preserves P m
      → ((b : B) → Preserves P (f b))
      → Preserves P (elim o [ none ↦ m | some b ↦ f b ])
  Preserves-option none km kf = km
  Preserves-option (some b) km kf = kf b
