-- ===== src/Net/Connect.antt =====
-- PowerNet/src/socket/connect.cpp, `connect_thread`: the thread that opens a connection.
use power_boot.Prelude.{ℕ, true, false, not, Option, some, if◌then◌else◌}
use power_boot.Prelude.Text.{Text, codes}
use power_boot.World.Sockets.{SocketAddress}
use power_boot.World.Calls.{OtCall}
use power_boot.Effects.{
  Env, M, ◌>>=◌, ◌>>◌, skip, put_finished, at, modify, yield, ot_call, throw_result,
}
use power_boot.Net.{is_no_data}
use power_boot.Net.Notifier.{connect_file}

module _ (env : Env) where
  -- `ThrowOSErr(call)` in line `line` of connect.cpp
  unfoldable pub check : ℕ → Text → OtCall → M (Unit {0})
  check line func call = do
    r ← ot_call env call
    throw_result env (connect_file env) line func r.result

  -- Lines 74 to 82: the endpoint is bound and gets its notifier.
  unfoldable pub set_up : ℕ → Option ℕ → M (Unit {0})
  set_up fd endpoint = do
    check 74 (codes "OTSetBlocking(s->endpoint)") (OtCall.set_blocking endpoint)
    check 75 (codes "OTSetSynchronous(s->endpoint)") (OtCall.set_synchronous endpoint)
    check 77 (codes "OTBind(s->endpoint, nil, nil)") (OtCall.bind endpoint)
    check 79 (codes "OTSetNonBlocking(s->endpoint)") (OtCall.set_non_blocking endpoint)
    check 80 (codes "OTSetAsynchronous(s->endpoint)") (OtCall.set_asynchronous endpoint)
    check 82 (codes "OTInstallNotifier(s->endpoint, notifier, s)")
        (OtCall.install_notifier endpoint fd)

  -- Lines 84 to 105: the call itself.
  unfoldable pub dial : ℕ → Option ℕ → SocketAddress → M (Unit {0})
  dial fd endpoint address = do
    yield env
    yield env
    modify fd (λ s. record s { snd_call = some address })
    put_finished false
    modify fd (λ s. record s { halting = true })
    r ← ot_call env (OtCall.connect endpoint address)
    yield env
    if not (is_no_data r.result)
        then throw_result env (connect_file env) 100 (codes "OTConnectStatus") r.result
        else skip
    yield env

  unfoldable pub connect_thread : ℕ → SocketAddress → M (Unit {0})
  connect_thread fd address = do
    s ← at fd
    yield env
    modify fd (λ s. record s { halting = true })
    set_up fd s.endpoint
    dial fd s.endpoint address
