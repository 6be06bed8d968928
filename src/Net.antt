-- ===== src/Net.antt =====
-- PowerNet/src/socket: `socket`, `connect`, `recv`, `send` and `select`, as one thread runs them
-- over the table of sockets. Loops that wait for another thread take fuel.
pub mod FdSets
pub mod Notifier
pub mod Connect
pub mod Table
pub mod Invariant
pub mod Events
pub mod Transfer
pub mod Buffered
pub mod Waiting
pub mod Dialing
pub mod Open
use power_boot.Prelude.{
  ℕ, suc, ◌≡◌, Bool, true, false, not, Option, none, some, List, [], ◌∷◌, ◌++◌, ◌==◌, leb, length,
  take, drop, replicate, if◌then◌else◌,
}
use power_boot.Prelude.Text.{Text, codes, show}
use power_boot.Errors.{OsErr, no_err, xti}
use power_boot.Errors.Xti.{no_data, flow}
use power_boot.World.{World}
use power_boot.World.Sockets.{Socket, new_socket, flatten}
use power_boot.World.Calls.{OtResult, count, error, OtCall, OtReply, tcp, udp, connect_thread}
use power_boot.Effects.{
  Env, M, pure, ◌>>=◌, ◌>>◌, skip, get, undefined, at, deref, modify, insert_socket, yield, ot_call,
  printf, new_thread_of, dispose_thread, mac_error_throw, throw_result, yield_while,
}
use FdSets.{FdSet, first_word}

-- include/sys/socket.h
abbrev pub sock_stream : ℕ
sock_stream = 1

abbrev sock_dgram : ℕ
sock_dgram = 2

abbrev pub is_no_err : OtResult → Bool
is_no_err (count n) = n == 0
is_no_err (error no_err) = true
is_no_err (error _) = false

-- `ret == kOTNoDataErr` and `ret == kOTFlowErr`
abbrev pub is_no_data : OtResult → Bool
is_no_data (error (xti no_data)) = true
is_no_data _ = false

abbrev pub is_flow : OtResult → Bool
is_flow (error (xti flow)) = true
is_flow _ = false

abbrev result_text : Env → OtResult → Text
result_text env (count n) = show n
result_text env (error e) = env.err_text e

-- A buffer after a call that wrote `bytes` at its beginning.
unfoldable pub overlay : Text → Text → Text
overlay buf bytes = take (length buf) bytes ++ drop (length bytes) buf

abbrev socket_file : Env → Text
socket_file env = env.source_root ++ codes "PowerNet/src/socket/socket.cpp"

module _ (env : Env) where
  -- The `switch` over the type: the configuration pointer, null for an unknown type.
  unfoldable pub configure : ℕ → M (Option ℕ)
  configure type =
      if type == sock_stream
      then (ot_call env (OtCall.create_configuration tcp) >>= λ r. pure r.pointer)
      else if type == sock_dgram
      then (ot_call env (OtCall.create_configuration udp) >>= λ r. pure r.pointer)
      else (mac_error_throw env (codes "Unknown socket type \"" ++ show type ++ codes "\" passed")
          >> pure none)

  -- From `openSockets.size()` to the insertion no other thread runs.
  unfoldable pub register : Socket → M ℕ
  register skt = do
    w ← get
    insert_socket (length w.sockets) (record skt { id = length w.sockets })
    yield env
    pure (length w.sockets)

  unfoldable pub socket : ℕ → M ℕ
  socket type = do
    r ← ot_call env OtCall.init_open_transport
    if is_no_err r.result
        then skip
        else mac_error_throw env
            (codes "Error initializing OpenTransport: " ++ result_text env r.result ++ codes "\n")
    yield env
    yield env
    cfg ← configure type
    yield env
    e ← ot_call env (OtCall.open_endpoint cfg)
    throw_result env (socket_file env) 35 (codes "OTEndpointStatus") e.result
    yield env
    ot_call env (OtCall.use_sync_idle_events e.pointer)
    yield env
    register (record new_socket { cfg = cfg; endpoint = e.pointer })

  -- `MaxApplZone` and `MoreMasters` only prepare the memory of the application.
  unfoldable pub connect : ℕ → M ℕ
  connect fuel = do
    new_thread_of env connect_thread
    yield_while env fuel (get >>= λ w. pure (not w.finished))
    dispose_thread env connect_thread
    yield env
    pure 0

  -- The result, and the buffer as it is left. `memcpy` copies all that was received: beyond
  -- `nbytes` it writes behind the buffer.
  unfoldable pub deliver : ℕ → ℕ → M (OtResult × Text)
  deliver fd nbytes = do
    s ← deref fd
    let fin = flatten s.recv_buf
    if leb (length fin) nbytes
        then (do
          modify fd (λ s. record s { recv_buf = [] })
          printf env (codes "recv: " ++ show (length fin) ++ codes "\n")
          pure (count (length fin), overlay (replicate nbytes 0) fin))
        else undefined

  -- What follows `OTRcv`, for its reply `r`.
  unfoldable pub received : ℕ → ℕ → ℕ → OtReply → M (OtResult × Text)
  received fuel fd nbytes r =
      if not (is_no_data r.result)
      then (do
        modify fd (λ s. record s { recv_halt = false })
        pure (r.result, overlay (replicate nbytes 0) r.bytes))
      else (do
        printf env (codes "asked to recv " ++ show nbytes ++ codes " bytes\n")
        yield_while env fuel (deref fd >>= λ s. pure s.recv_halt)
        deliver fd nbytes)

  unfoldable pub recv : ℕ → ℕ → ℕ → M (OtResult × Text)
  recv fuel fd nbytes = do
    at fd
    yield env
    s ← deref fd
    r ← ot_call env (OtCall.rcv s.endpoint nbytes)
    received fuel fd nbytes r

  -- What follows `OTSnd`, for its reply `r`.
  unfoldable pub sent : ℕ → ℕ → Text → OtReply → M OtResult
  sent fuel fd buf r =
      if not (is_flow r.result)
      then (modify fd (λ s. record s { send_halt = false }) >> pure r.result)
      else (do
        printf env (codes "asked to send " ++ show (length buf) ++ codes " bytes\n")
        yield_while env fuel (deref fd >>= λ s. pure s.send_halt)
        s ← deref fd
        let placeholder = flatten s.send_buf
        modify fd (λ s. record s { send_buf = [] })
        yield env
        pure (count (length placeholder)))

  -- The request to Open Transport, with the flag that is set around it.
  unfoldable pub request : ℕ → ℕ → Text → M OtResult
  request fuel fd buf = do
    modify fd (λ s. record s { send_halt = true })
    s ← deref fd
    r ← ot_call env (OtCall.snd s.endpoint buf)
    sent fuel fd buf r

  unfoldable pub send : ℕ → ℕ → Text → M OtResult
  send fuel fd buf = do
    at fd
    yield env
    if length buf == 0 then pure (count 0) else request fuel fd buf

  -- One set of `select`: its first word is taken for the id of a socket.
  unfoldable pub select_on : ℕ → (Socket → Bool) → Option FdSet → M (Unit {0})
  select_on fuel halted none = skip
  select_on fuel halted (some fds) = do
    at (first_word fds)
    yield_while env fuel (deref (first_word fds) >>= λ s. pure (halted s))

  unfoldable pub select : ℕ → Option FdSet → Option FdSet → M ℕ
  select fuel readfds writefds = do
    select_on fuel (λ s. s.recv_halt) readfds
    select_on fuel (λ s. s.send_halt) writefds
    pure 0
