-- ===== src/Net/Events.antt =====
-- The thread that opens a connection and the notifier keep the table of sockets as it should be,
-- however they end, if the other threads do.
use Prim.Native.String.{String}
use power_boot.Prelude.{ℕ, ◌<◌, refl, Bool, true, false, not, Option, none, some}
use power_boot.Prelude.Text.{Text}
use power_boot.World.{World}
use power_boot.World.Sockets.{SocketAddress}
use power_boot.World.Calls.{OtCall, OtResult, count, error}
use power_boot.Effects.{Env, at, deref, modify, throw_result}
use power_boot.Effects.Keeps.{
  Post, Anything, Respects, Keeps, Meets-skip, Meets-bind, Meets-then, Meets-if, Meets-ot_call,
  Meets-yield, Meets-printf, Meets-put_finished, Keeps-undefined, Keeps-mac_error_throw,
  Keeps-throw_result,
}
use power_boot.Net.{is_no_data}
use power_boot.Net.Notifier.{
  connect_file, OtEvent, t_connect, t_data, t_exdata, t_disconnect, unhandled, on_size, on_data,
  on_connect, on_disconnect, report_event, on_event, notifier,
}
use power_boot.Net.Connect.{check, set_up, dial, connect_thread}
use power_boot.Net.Table.{IsTable}
use power_boot.Net.Open.{deref-IsQuiet, at-IsQuiet, modify-KeepsQuiet}

module _ (env : Env) {n : ℕ} (r : Respects (IsTable n) env) where
  check-Keeps : (line : ℕ) (func : Text) (c : OtCall) → Keeps (IsTable n) (check env line func c)
  unfolding check
  check-Keeps line func c =
      Meets-bind _ (λ a. throw_result env (connect_file env) line func a.result)
        (Meets-ot_call env c) λ a _ _. Keeps-throw_result r (connect_file env) line func a.result

module _ (env : Env) {n : ℕ} (r : Respects (IsTable n) env) {fd : ℕ} (open_fd : fd < n) where
  set_halting : (b : Bool) → Keeps (IsTable n) (modify fd (λ s. record s { halting = b }))
  set_halting b =
      modify-KeepsQuiet env r open_fd _
        (λ s k. (refl, record { no_halt = k.no_halt; no_recv = k.no_recv; no_send = k.no_send }))

  set_snd_call :
      (a : SocketAddress) → Keeps (IsTable n) (modify fd (λ s. record s { snd_call = some a }))
  set_snd_call a =
      modify-KeepsQuiet env r open_fd _
        (λ s k. (refl, record { no_halt = k.no_halt; no_recv = k.no_recv; no_send = k.no_send }))

  set_up-Keeps : (endpoint : Option ℕ) → Keeps (IsTable n) (set_up env fd endpoint)
  unfolding set_up
  set_up-Keeps endpoint = Meets-then _ _ (check-Keeps env r _ _ _) (
      Meets-then _ _ (check-Keeps env r _ _ _) (
        Meets-then _ _ (check-Keeps env r _ _ _) (
          Meets-then _ _ (check-Keeps env r _ _ _)
            (Meets-then _ _ (check-Keeps env r _ _ _) (check-Keeps env r _ _ _)))))

  dial-Keeps :
      (endpoint : Option ℕ) (address : SocketAddress)
      → Keeps (IsTable n) (dial env fd endpoint address)
  unfolding dial
  dial-Keeps endpoint address = Meets-then _ _ (Meets-yield env r) (
      Meets-then _ _ (Meets-yield env r) (
        Meets-then _ _ (set_snd_call address) (
          Meets-then _ _ (Meets-put_finished false) (
            Meets-then _ _ (set_halting true) (
              Meets-bind _ _ (Meets-ot_call env _) λ a _ _. Meets-then _ _ (Meets-yield env r) (
                Meets-then _ _
                  (Meets-if (not (is_no_data a.result)) _ _
                    (λ _. Keeps-throw_result r _ _ _ a.result) (λ _. Meets-skip))
                  (Meets-yield env r)))))))

  connect_thread-Meets :
      (address : SocketAddress) → Keeps (IsTable n) (connect_thread env fd address)
  unfolding connect_thread
  connect_thread-Meets address = Meets-bind (at fd) _ (at-IsQuiet env r open_fd) λ s _ _.
      Meets-then _ _ (Meets-yield env r) (
        Meets-then _ _ (set_halting true)
          (Meets-then _ _ (set_up-Keeps s.endpoint) (dial-Keeps s.endpoint address)))

  -- No data is ever read: nothing has asked for it.
  on_size-Keeps : (fuel : ℕ) (size : OtResult) → Keeps (IsTable n) (on_size env fuel fd size)
  unfolding on_size
  on_size-Keeps fuel (error e) = Keeps-undefined
  on_size-Keeps fuel (count size) =
      Meets-then _ _ (Meets-printf env r _)
        (Meets-bind (deref fd) _ (deref-IsQuiet env r open_fd) λ s _ q. rw q.no_halt Meets-skip)

  on_data-Keeps : (fuel : ℕ) → Keeps (IsTable n) (on_data env fuel fd)
  unfolding on_data
  on_data-Keeps fuel =
      Meets-bind (deref fd) _ (deref-IsQuiet env r open_fd)
        λ s _ q. Meets-bind _ _ (Meets-ot_call env _) λ a _ _. on_size-Keeps fuel a.result

  on_connect-Keeps : Keeps (IsTable n) (on_connect env fd)
  unfolding on_connect
  on_connect-Keeps = Meets-bind (deref fd) _ (deref-IsQuiet env r open_fd) λ s _ q.
      Meets-bind _ _ (Meets-ot_call env _) λ a _ _.
        Meets-then _ _ (Keeps-throw_result r _ _ _ a.result)
          (Meets-bind _ _ (Meets-ot_call env _) λ b _ _. Meets-printf env r _)

  on_disconnect-Keeps : Keeps (IsTable n) (on_disconnect env fd)
  unfolding on_disconnect
  on_disconnect-Keeps =
      Meets-bind (deref fd) _ (deref-IsQuiet env r open_fd)
        λ s _ q. Meets-then _ _ (Meets-ot_call env _) Keeps-undefined

  report_event-Keeps : (o : Option String) → Keeps (IsTable n) (report_event env o)
  unfolding report_event
  report_event-Keeps none = Meets-skip
  report_event-Keeps (some name) = Keeps-mac_error_throw r _

  on_event-Keeps : (fuel : ℕ) (e : OtEvent) → Keeps (IsTable n) (on_event env fuel fd e)
  unfolding on_event
  on_event-Keeps fuel t_connect = on_connect-Keeps
  on_event-Keeps fuel t_data = on_data-Keeps fuel
  on_event-Keeps fuel t_exdata = on_data-Keeps fuel
  on_event-Keeps fuel t_disconnect = on_disconnect-Keeps
  on_event-Keeps fuel e = report_event-Keeps (unhandled e)

  notifier-Meets :
      (fuel : ℕ) (code : OtEvent) (res : OtResult)
      → Keeps (IsTable n) (notifier env fuel fd code res)
  unfolding notifier
  notifier-Meets fuel code res = Meets-then _ _ (Meets-yield env r) (
      Meets-then _ _ (Meets-put_finished true) (
        Meets-then _ _ (Keeps-throw_result r _ _ _ res) (
          Meets-then (deref fd) _ (deref-IsQuiet env r open_fd) (
            Meets-then _ _ (on_event-Keeps fuel code)
              (Meets-then _ _ (set_halting false) (Meets-yield env r))))))

  -- The thread that opens a connection for an open socket keeps the table of quiet sockets, if
  -- other threads keep it, whatever Open Transport replies.
  connect_thread-Keeps :
      (address : SocketAddress) (w : World)
      → IsTable n w.sockets
      → Post (IsTable n) (IsTable n) Anything (connect_thread env fd address w)
  connect_thread-Keeps address w is = (connect_thread-Meets address).run w is

  -- The notifier of an open socket keeps the table of quiet sockets at every event, if other
  -- threads keep it: in particular the buffers of received bytes stay empty.
  notifier-Keeps :
      (fuel : ℕ) (code : OtEvent) (res : OtResult) (w : World)
      → IsTable n w.sockets
      → Post (IsTable n) (IsTable n) Anything (notifier env fuel fd code res w)
  notifier-Keeps fuel code res w is = (notifier-Meets fuel code res).run w is
