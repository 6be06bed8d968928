-- ===== src/Net/Notifier.antt =====
-- PowerNet/src/socket/connect.cpp, `notifier`: what Open Transport's events do to a socket.
use Prim.Native.String.{String}
use power_boot.Prelude.{
  ℕ, zero, suc, true, false, Option, none, some, [], ◌∷◌, ◌++◌, replicate, if◌then◌else◌,
}
use power_boot.Prelude.Text.{Text, codes, show}
use power_boot.World.Calls.{
  OtResult, count, error, OtFlags, no_flags, more, expedited, acknowledged, partial_data,
  no_receipt, timed_out, other_flags, OtCall,
}
use power_boot.Effects.{
  Env, M, ◌>>=◌, ◌>>◌, skip, spinning, undefined, put_finished, deref, modify, yield, ot_call,
  printf, mac_error_throw, throw_result,
}
use power_boot.Net.{is_no_data, overlay}

-- The events that the switch has a `case` for, and any other.
pub data OtEvent : Type 0 where
  t_listen t_connect t_data t_exdata t_disconnect t_error t_uderr t_ordrel t_godata : OtEvent
  t_goexdata t_request t_reply t_passcon t_reset t_bindcomplete t_unbindcomplete : OtEvent
  t_acceptcomplete t_replycomplete t_disconnectcomplete t_optmgmtcomplete t_opencomplete : OtEvent
  t_getprotaddrcomplete t_resolveaddrcomplete t_getinfocomplete t_synccomplete : OtEvent
  t_memoryreleased t_regnamecomplete t_delnamecomplete t_lkupnamecomplete t_lkupnameresult : OtEvent
  provider_is_disconnected sync_idle_event provider_is_reconnected provider_will_close : OtEvent
  provider_is_closed other_event : OtEvent

-- The events that are only reported, with the name in the report.
unfoldable pub unhandled : OtEvent → Option String
unhandled t_listen = some "T_LISTEN"
unhandled t_connect = none
unhandled t_data = none
unhandled t_exdata = none
unhandled t_disconnect = none
unhandled t_error = some "T_ERROR"
unhandled t_uderr = some "T_UDERR"
unhandled t_ordrel = none
unhandled t_godata = some "T_GODATA"
unhandled t_goexdata = some "T_GOEXDATA"
unhandled t_request = some "T_REQUEST"
unhandled t_reply = some "T_REPLY"
unhandled t_passcon = some "T_PASSCON"
unhandled t_reset = some "T_RESET"
unhandled t_bindcomplete = some "T_BINDCOMPLETE"
unhandled t_unbindcomplete = some "T_UNBINDCOMPLETE"
unhandled t_acceptcomplete = some "T_ACCEPTCOMPLETE"
unhandled t_replycomplete = some "T_REPLYCOMPLETE"
unhandled t_disconnectcomplete = some "T_DISCONNECTCOMPLETE"
unhandled t_optmgmtcomplete = some "T_OPTMGMTCOMPLETE"
unhandled t_opencomplete = some "T_OPENCOMPLETE"
unhandled t_getprotaddrcomplete = some "T_GETPROTADDRCOMPLETE"
unhandled t_resolveaddrcomplete = some "T_RESOLVEADDRCOMPLETE"
unhandled t_getinfocomplete = some "T_GETINFOCOMPLETE"
unhandled t_synccomplete = some "T_SYNCCOMPLETE"
unhandled t_memoryreleased = some "T_MEMORYRELEASED"
unhandled t_regnamecomplete = some "T_REGNAMECOMPLETE"
unhandled t_delnamecomplete = some "T_DELNAMECOMPLETE"
unhandled t_lkupnamecomplete = some "T_LKUPNAMECOMPLETE"
unhandled t_lkupnameresult = some "T_LKUPNAMERESULT"
unhandled provider_is_disconnected = some "kOTProviderIsDisconnected"
unhandled sync_idle_event = some "kOTSyncIdleEvent"
unhandled provider_is_reconnected = some "kOTProviderIsReconnected"
unhandled provider_will_close = some "kOTProviderWillClose"
unhandled provider_is_closed = some "kOTProviderIsClosed"
unhandled other_event = none

abbrev pub connect_file : Env → Text
connect_file env = env.source_root ++ codes "PowerNet/src/socket/connect.cpp"

module _ (env : Env) where
  -- The `switch` over the flags of a read.
  unfoldable pub flags_report : OtFlags → M (Unit {0})
  flags_report expedited = printf env (codes "T_EXPEDITED\n")
  flags_report acknowledged = printf env (codes "T_ACKNOWLEDGED\n")
  flags_report partial_data = printf env (codes "T_PARTIALDATA\n")
  flags_report no_receipt = printf env (codes "T_NORECEIPT\n")
  flags_report timed_out = mac_error_throw env (codes "Timed out recieving data")
  flags_report no_flags = skip
  flags_report more = skip
  flags_report other_flags = skip

  -- The `for (;;)` that reads until there is no data; `buf` is `dataBuf`, of `dataSize` bytes.
  unfoldable pub read_loop : ℕ → ℕ → ℕ → Text → M (Unit {0})
  read_loop zero fd size buf = spinning
  read_loop (suc fuel) fd size buf = do
    s ← deref fd
    r ← ot_call env (OtCall.rcv s.endpoint size)
    elim (is_no_data r.result) [
      | true ↦ modify fd (λ s. record s { recv_buf = s.recv_buf ++ overlay buf r.bytes ∷ [] })
      | false ↦
          throw_result env (connect_file env) 166 (codes "OTRcvResult") r.result
          >> yield env
          >> flags_report r.flags
          >> yield env
          >> read_loop fuel fd size (overlay buf r.bytes)
    ]

  -- An error of `OTCountDataBytes` leaves `dataSize` without a value.
  unfoldable pub on_size : ℕ → ℕ → OtResult → M (Unit {0})
  on_size fuel fd (error _) = undefined
  on_size fuel fd (count size) = do
    printf env (codes "OT wants to recv " ++ show size ++ codes "\n")
    s ← deref fd
    if s.recv_halt then read_loop fuel fd size (replicate size 0) else skip

  -- T_DATA and T_EXDATA
  unfoldable pub on_data : ℕ → ℕ → M (Unit {0})
  on_data fuel fd = do
    s ← deref fd
    r ← ot_call env (OtCall.count_data_bytes s.endpoint)
    on_size fuel fd r.result

  -- T_CONNECT
  unfoldable pub on_connect : ℕ → M (Unit {0})
  on_connect fd = do
    s ← deref fd
    r ← ot_call env (OtCall.rcv_connect s.endpoint)
    throw_result env (connect_file env) 140 (codes "OTRcvConnect(endpoint, call)") r.result
    n ← ot_call env OtCall.address_to_name
    printf env (codes "Connected: " ++ n.bytes ++ codes "\n")

  -- T_DISCONNECT: the reason, a number, is printed by `%s`.
  unfoldable pub on_disconnect : ℕ → M (Unit {0})
  on_disconnect fd = do s ← deref fd; ot_call env (OtCall.rcv_disconnect s.endpoint); undefined

  unfoldable pub report_event : Option String → M (Unit {0})
  report_event none = skip
  report_event (some name) =
      mac_error_throw env (codes "Unhandled OTLook: " ++ codes name ++ codes "\n")

  -- The `switch` over the event.
  unfoldable pub on_event : ℕ → ℕ → OtEvent → M (Unit {0})
  on_event fuel fd t_connect = on_connect fd
  on_event fuel fd t_data = on_data fuel fd
  on_event fuel fd t_exdata = on_data fuel fd
  on_event fuel fd t_disconnect = on_disconnect fd
  on_event fuel fd e = report_event (unhandled e)

  -- `notifier` for the socket that was handed to `OTInstallNotifier`
  unfoldable pub notifier : ℕ → ℕ → OtEvent → OtResult → M (Unit {0})
  notifier fuel fd code res = do
    yield env
    put_finished true
    throw_result env (connect_file env) 112 (codes "res") res
    deref fd
    on_event fuel fd code
    modify fd (λ s. record s { halting = false })
    yield env
