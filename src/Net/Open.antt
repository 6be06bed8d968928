-- ===== src/Net/Open.antt =====
-- Rules for the steps of `recv`, `send` and `select` on an open socket.
use power_boot.Prelude.{
  ◌∙◌, ℕ, suc, ◌<◌, ◌≡◌, refl, Option, none, some, arith, length, length-append, length-take,
  length-drop, length-replicate, take, drop, replicate,
}
use power_boot.Prelude.Text.{Text}
use power_boot.World.{lookup}
use power_boot.World.Sockets.{Socket}
use power_boot.Effects.{Env, pure, ◌>>=◌, deref, modify, yield_while, at}
use power_boot.Effects.Keeps.{
  Table, Pred, Meets, Respects, Anything, Meets-pure, Meets-bind, Meets-deref, Meets-at,
  Meets-modify, Meets-yield_while-false,
}
use power_boot.Net.{overlay}
use power_boot.Net.Table.{IsQuiet, IsTable, IsEntry, KeepsQuiet, IsTable-lookup, IsTable-update}

-- The entry of an open socket, as the rules for `deref` and `modify` ask for it.
open_entry :
    {n fd : ℕ}
    → fd < n
    → (t : Table) → IsTable n t
    → (s : Socket) × (lookup fd t ≡ some s) × IsQuiet s
open_entry {n} {fd} h t is = from (lookup fd t) refl (IsTable-lookup is h)
  where
    from :
        (o : Option Socket)
        → lookup fd t ≡ o
        → IsEntry fd o
        → (s : Socket) × (lookup fd t ≡ some s) × IsQuiet s
    from none e h = absurd h
    from (some s) e h = (s, e, h.1)

module _ (env : Env) {n : ℕ} {E : Pred} (r : Respects (IsTable n) env) {fd : ℕ}
    (open_fd : fd < n) where
  pub deref-IsQuiet : Meets (IsTable n) E (λ s _. IsQuiet s) (deref fd)
  deref-IsQuiet = Meets-deref fd IsQuiet (open_entry open_fd)

  pub at-IsQuiet : Meets (IsTable n) E (λ s _. IsQuiet s) (at fd)
  at-IsQuiet = Meets-at fd IsQuiet (open_entry open_fd)

  pub modify-KeepsQuiet :
      (f : Socket → Socket) → KeepsQuiet f → Meets (IsTable n) E Anything (modify fd f)
  modify-KeepsQuiet f q =
      Meets-modify fd f (λ t is. let (s, e, k) = open_entry open_fd t is in (s, e))
        (λ t is. IsTable-update fd f q is)

  pub no_recv_wait :
      (fuel : ℕ)
      → Meets
          (IsTable n)
          E
          Anything
          (yield_while env (suc fuel) (deref fd >>= λ s. pure s.recv_halt))
  no_recv_wait fuel =
      Meets-yield_while-false env fuel _
        (Meets-bind (deref fd) _ deref-IsQuiet λ s t q. Meets-pure s.recv_halt (λ _ _. q.no_halt))

pub length-overlay_any : (buf bytes : Text) → length (overlay buf bytes) ≡ length buf
unfolding overlay
length-overlay_any buf bytes = omega (
  arith,
  length-append (take (length buf) bytes) (drop (length bytes) buf),
  length-take (length buf) bytes,
  length-drop (length bytes) buf,
)

pub length-overlay : (n : ℕ) (bytes : Text) → length (overlay (replicate n 0) bytes) ≡ n
length-overlay n bytes = length-overlay_any (replicate n 0) bytes ∙ length-replicate {0} {A = ℕ} n 0
