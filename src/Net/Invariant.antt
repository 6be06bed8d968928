-- ===== src/Net/Invariant.antt =====
-- Every operation of the socket layer keeps the table of sockets as it should be, however it ends,
-- if the other threads do.
use power_boot.Prelude.{ℕ, suc, ◌≤◌, ◌≡◌, refl, not, none, ◌++◌, arith, length, ◌==◌}
use power_boot.Prelude.Text.{codes, show}
use power_boot.World.{insert, World}
use power_boot.World.Sockets.{Socket}
use power_boot.World.Calls.{OtCall}
use power_boot.Effects.{Env, pure, ◌>>=◌, ◌>>◌, insert_socket, get}
use power_boot.Effects.Steps.{yield-done_at}
use power_boot.Effects.Keeps.{
  Post, Meets, Respects, Keeps, Meets-pure, Meets-skip, Meets-get, Meets-bind, Meets-then, Meets-if,
  Meets-ot_call, Meets-yield, Meets-new_thread_of, Keeps-dispose, Keeps-mac_error_throw,
  Keeps-throw_result, Keeps-yield_while,
}
use power_boot.Net.{is_no_err, configure, register, socket, connect}
use power_boot.Net.Table.{IsQuiet, IsTable, IsTable-insert, IsTable-le}

-- Other threads keep the table, whatever it has grown to.
abbrev pub AllRespect : Env → Type 0
AllRespect env = (n : ℕ) → Respects (IsTable n) env

module _ (env : Env) (rs : AllRespect env) {n : ℕ} where
  register-fresh :
      (skt : Socket)
      → IsQuiet skt
      → Meets (IsTable n) (IsTable n) (λ id t. (n ≤ id) × IsTable (suc id) t) (register env skt)
  unfolding register insert_socket ◌>>=◌ get ◌>>◌ pure
  register-fresh skt q = record {
    run = λ w is.
        let id : ℕ = length w.sockets in
        let t : World = record w { sockets = insert id (record skt { id = id }) w.sockets } in
        let here : IsTable (suc id) (insert id (record skt { id = id }) w.sockets) =
          IsTable-insert is (record skt { id = id }) refl
            (record { no_halt = q.no_halt; no_recv = q.no_recv; no_send = q.no_send }) in
        let after = (rs (suc id)).interfere _ here in
        rw (yield-done_at env t ((rs (suc id)).resumes _ here))
          (IsTable-le (omega (arith, is.enough)) after, (is.enough, after));
  }

  configure-Keeps : (type : ℕ) → Keeps (IsTable n) (configure env type)
  unfolding configure
  configure-Keeps type =
      Meets-if (type == 1) _ _
        (λ _. Meets-bind _ _ (Meets-ot_call env _) λ r _ _. Meets-pure r.pointer (λ _ _. tt))
        (λ _.
          Meets-if (type == 2) _ _
            (λ _. Meets-bind _ _ (Meets-ot_call env _) λ r _ _. Meets-pure r.pointer (λ _ _. tt))
            (λ _.
              Meets-then _ _
                (Keeps-mac_error_throw (rs n)
                  (codes "Unknown socket type \"" ++ show type ++ codes "\" passed"))
                (Meets-pure none (λ _ _. tt))))

  pub socket-Meets :
      (type : ℕ)
      → Meets (IsTable n) (IsTable n) (λ id t. (n ≤ id) × IsTable (suc id) t) (socket env type)
  unfolding socket
  socket-Meets type = Meets-bind _ _ (Meets-ot_call env OtCall.init_open_transport) λ r _ _.
      Meets-then _ _
        (Meets-if (is_no_err r.result) _ _ (λ _. Meets-skip) (λ _. Keeps-mac_error_throw (rs n) _))
        (Meets-then _ _ (Meets-yield env (rs n)) (
          Meets-then _ _ (Meets-yield env (rs n)) (
            Meets-bind _ _ (configure-Keeps type) λ cfg _ _.
              Meets-then _ _ (Meets-yield env (rs n)) (
                Meets-bind _ _ (Meets-ot_call env (OtCall.open_endpoint cfg)) λ e _ _.
                  Meets-then _ _ (Keeps-throw_result (rs n) _ _ _ e.result) (
                    Meets-then _ _ (Meets-yield env (rs n)) (
                      Meets-then _ _ (Meets-ot_call env _) (
                        Meets-then _ _ (Meets-yield env (rs n)) (
                          register-fresh _
                            (record { no_halt = refl; no_recv = refl; no_send = refl })))))))))

module _ (env : Env) {n : ℕ} (r : Respects (IsTable n) env) where
  pub connect-Meets : (fuel : ℕ) → Meets (IsTable n) (IsTable n) (λ v _. v ≡ 0) (connect env fuel)
  unfolding connect
  connect-Meets fuel = Meets-then _ _ (Meets-new_thread_of env _) (
      Meets-then _ _
        (Keeps-yield_while r fuel _
          (Meets-bind get _ Meets-get λ w _ _. Meets-pure (not w.finished) (λ _ _. tt)))
        (Meets-then _ _ (Keeps-dispose r _)
          (Meets-then _ _ (Meets-yield env r) (Meets-pure 0 (λ _ _. refl)))))

-- On a table as it should be, which other threads keep so whatever its size, sparing this one,
-- `socket` returns an id that is not below the number of sockets at its start, and the table then
-- has an entry under that id; where it ends otherwise, the table has its form and no fewer sockets
-- too.
pub socket-fresh :
    (env : Env) (type : ℕ) (w : World)
    → AllRespect env
    → IsTable 0 w.sockets
    → Post
        (IsTable (length w.sockets))
        (IsTable (length w.sockets))
        (λ id t. (length w.sockets ≤ id) × IsTable (suc id) t)
        (socket env type w)
socket-fresh env type w rs is =
    (socket-Meets env rs type).run w (record { counts = is.counts; enough = omega arith })
