-- ===== src/Net/Transfer.antt =====
-- `recv` and `select` on an open socket, in every state in which nothing has set `recv_halt`:
-- they return, and `recv` never delivers bytes from the buffer of the notifier.
use power_boot.Prelude.{
  ℕ, zero, suc, ◌<◌, ◌≡◌, refl, ◌⊎◌, inl, inr, Bool, true, false, not, Option, none, some, [],
  arith, ◌∙◌, sym, ap, length, replicate, leb, if◌then◌else◌, ◌==◌,
}
use power_boot.Prelude.Text.{Text}
use power_boot.World.{World}
use power_boot.World.Sockets.{Socket, flatten}
use power_boot.World.Calls.{OtCall, OtReply, OtResult, count}
use power_boot.Effects.{Env, deref, modify, yield, at}
use power_boot.Effects.Keeps.{
  Post, Meets, Respects, Anything, Gives, Meets-pure, Meets-skip, Meets-bind, Meets-mono,
  Meets-then, Meets-if, Meets-ot_reply, Meets-yield, Meets-printf,
}
use power_boot.Net.{
  is_no_data, overlay, deliver, received, recv, is_flow, sent, request, send, select_on, select,
}
use power_boot.Net.FdSets.{FdSet, first_word}
use power_boot.Net.Table.{IsTable}
use power_boot.Net.Open.{deref-IsQuiet, at-IsQuiet, modify-KeepsQuiet, no_recv_wait}

-- What `recv` makes of a reply of `OTRcv`: where there is no data it returns 0 and a zeroed
-- buffer, and otherwise what Open Transport returned.
abbrev pub answer : ℕ → OtReply → OtResult × Text
answer nbytes r =
    if is_no_data r.result
    then (count 0, replicate nbytes 0)
    else (r.result, overlay (replicate nbytes 0) r.bytes)

abbrev pub Answered : Env → ℕ → OtResult × Text → Type 0
Answered env nbytes out =
    (w : World) × (endpoint : Option ℕ) × (out
      ≡ answer nbytes (env.ot_reply w (OtCall.rcv endpoint nbytes)))

answer-dry :
    (nbytes : ℕ) (r : OtReply)
    → is_no_data r.result ≡ true
    → answer nbytes r ≡ (count 0, replicate nbytes 0)
answer-dry nbytes r e = rw e

answer-got :
    (nbytes : ℕ) (r : OtReply)
    → is_no_data r.result ≡ false
    → answer nbytes r ≡ (r.result, overlay (replicate nbytes 0) r.bytes)
answer-got nbytes r e = rw e

not-eq_true : (b : Bool) → not b ≡ true → b ≡ false
not-eq_true true e = cc
not-eq_true false e = refl

not-eq_false : (b : Bool) → not b ≡ false → b ≡ true
not-eq_false true e = refl
not-eq_false false e = cc

overlay-nil : (n : ℕ) → overlay (replicate n 0) [] ≡ replicate n 0
unfolding overlay
overlay-nil zero = refl
overlay-nil (suc n) = refl

abbrev pub Relayed : Env → Text → OtResult → Type 0
Relayed env buf out =
    ((length buf == 0) ≡ true) × (out ≡ count 0)
    ⊎ ((length buf == 0) ≡ false)
      × ((w : World) × (endpoint : Option ℕ) × (out
            ≡ (env.ot_reply w (OtCall.snd endpoint buf)).result))

module _ (env : Env) {n : ℕ} (r : Respects (IsTable n) env) {fd : ℕ} (open_fd : fd < n) where
  deliver-zero :
      (nbytes : ℕ)
      → Gives (IsTable n) (λ out. out ≡ (count 0, replicate nbytes 0)) (deliver env fd nbytes)
  unfolding deliver flatten
  deliver-zero nbytes = Meets-bind (deref fd) _ (deref-IsQuiet env r open_fd) λ s t q.
      rw q.no_recv (
        Meets-if (leb 0 nbytes) _ _
          (λ _.
            Meets-then _ _
              (modify-KeepsQuiet env r open_fd _ (λ s k.
                (refl, record { no_halt = k.no_halt; no_recv = refl; no_send = k.no_send })))
              (Meets-then _ _ (Meets-printf env r _)
                (Meets-pure _ (λ _ _. ap (λ b. (count 0, b)) (overlay-nil nbytes)))))
          (λ e. absurd (ground arith)))

  set_recv_halt :
      Meets (IsTable n) (λ _. ⊥) Anything (modify fd (λ s. record s { recv_halt = false }))
  set_recv_halt =
      modify-KeepsQuiet env r open_fd _
        (λ s k. (refl, record { no_halt = refl; no_recv = k.no_recv; no_send = k.no_send }))

  received-answer :
      (fuel nbytes : ℕ) (a : OtReply)
      → Gives (IsTable n) (λ out. out ≡ answer nbytes a) (received env (suc fuel) fd nbytes a)
  unfolding received
  received-answer fuel nbytes a =
      Meets-if (not (is_no_data a.result)) _ _
        (λ e.
          Meets-then _ _ set_recv_halt
            (Meets-pure _ (λ _ _. sym (answer-got nbytes a (not-eq_true _ e)))))
        (λ e. Meets-then _ _ (Meets-printf env r _) (
          Meets-then _ _ (no_recv_wait env r open_fd fuel) (
            Meets-mono (deliver-zero nbytes)
              λ out _ g. g ∙ sym (answer-dry nbytes a (not-eq_false _ e)))))

  recv-Meets :
      (fuel nbytes : ℕ) → Gives (IsTable n) (Answered env nbytes) (recv env (suc fuel) fd nbytes)
  unfolding recv
  recv-Meets fuel nbytes = Meets-then (at fd) _ (at-IsQuiet env r open_fd) (
      Meets-then (yield env) _ (Meets-yield env r) (
        Meets-bind (deref fd) _ (deref-IsQuiet env r open_fd) λ s _ _.
          Meets-bind _ _ (Meets-ot_reply env (OtCall.rcv s.endpoint nbytes)) λ a _ (w, e).
            Meets-mono (received-answer fuel nbytes a) λ out _ g. (w, s.endpoint, rw (← e) g)))

  -- A flag that only `send` reads.
  set_send_halt :
      (b : Bool) → Meets (IsTable n) (λ _. ⊥) Anything (modify fd (λ s. record s { send_halt = b }))
  set_send_halt b =
      modify-KeepsQuiet env r open_fd _
        (λ s k. (refl, record { no_halt = k.no_halt; no_recv = k.no_recv; no_send = k.no_send }))

  sent-result :
      (fuel : ℕ) (buf : Text) (a : OtReply)
      → is_flow a.result ≡ false
      → Gives (IsTable n) (λ out. out ≡ a.result) (sent env fuel fd buf a)
  unfolding sent
  sent-result fuel buf a e =
      rw e (Meets-then _ _ (set_send_halt false) (Meets-pure a.result (λ _ _. refl)))

  send-Meets :
      (fuel : ℕ) (buf : Text)
      → ((w : World) (endpoint : Option ℕ)
          → is_flow (env.ot_reply w (OtCall.snd endpoint buf)).result ≡ false)
      → Gives (IsTable n) (Relayed env buf) (send env fuel fd buf)
  unfolding send request
  send-Meets fuel buf no_flow = Meets-then (at fd) _ (at-IsQuiet env r open_fd) (
      Meets-then (yield env) _ (Meets-yield env r) (
        Meets-if (length buf == 0) _ _ (λ e. Meets-pure (count 0) (λ _ _. inl (e, refl)))
          (λ e. Meets-then _ _ (set_send_halt true) (
            Meets-bind (deref fd) _ (deref-IsQuiet env r open_fd) λ s _ _.
              Meets-bind _ _ (Meets-ot_reply env (OtCall.snd s.endpoint buf)) λ a _ (w, g).
                Meets-mono (sent-result fuel buf a (rw g (no_flow w s.endpoint)))
                  λ out _ h. inr (e, (w, s.endpoint, h ∙ ap (λ (o : OtReply). o.result) g))))))

module _ (env : Env) {n : ℕ} (r : Respects (IsTable n) env) where
  select_on-read :
      (fuel : ℕ) (fds : FdSet)
      → first_word fds < n
      → Gives (IsTable n) (λ _. Unit) (select_on env (suc fuel) (λ s. s.recv_halt) (some fds))
  unfolding select_on
  select_on-read fuel fds h =
      Meets-then (at (first_word fds)) _ (at-IsQuiet env r h) (no_recv_wait env r h fuel)

  select_on-none :
      (fuel : ℕ) (halted : Socket → Bool)
      → Gives (IsTable n) (λ _. Unit) (select_on env fuel halted none)
  unfolding select_on
  select_on-none fuel halted = Meets-skip

  select-Meets :
      (fuel : ℕ) (fds : FdSet)
      → first_word fds < n
      → Gives (IsTable n) (λ v. v ≡ 0) (select env (suc fuel) (some fds) none)
  unfolding select
  select-Meets fuel fds h =
      Meets-then _ _ (select_on-read fuel fds h)
        (Meets-then _ _ (select_on-none (suc fuel) _) (Meets-pure 0 (λ _ _. refl)))

module _ (env : Env) {n : ℕ} (r : Respects (IsTable n) env) {fd : ℕ} (open_fd : fd < n) where
  -- Where other threads keep the table of quiet sockets and spare this one, `recv` on an open
  -- socket with any fuel but 0 returns: it neither throws nor waits, and its result is the answer
  -- to what Open Transport replies to OTRcv in some state: the reply, or 0 bytes where there is no
  -- data.
  pub recv-Answered :
      (fuel nbytes : ℕ) (w : World)
      → IsTable n w.sockets
      → Post
          (IsTable n)
          (λ _. ⊥)
          (λ out _. Answered env nbytes out)
          (recv env (suc fuel) fd nbytes w)
  recv-Answered fuel nbytes w is = (recv-Meets env r open_fd fuel nbytes).run w is

  -- Where Open Transport never answers OTSnd with kOTFlowErr and other threads keep the table of
  -- quiet sockets and spare this one, `send` on an open socket returns: 0 for an empty buffer, and
  -- otherwise what Open Transport replies in some state to the request to send the whole buffer.
  pub send-Relayed :
      (fuel : ℕ) (buf : Text) (w : World)
      → ((w : World) (endpoint : Option ℕ)
          → is_flow (env.ot_reply w (OtCall.snd endpoint buf)).result ≡ false)
      → IsTable n w.sockets
      → Post (IsTable n) (λ _. ⊥) (λ out _. Relayed env buf out) (send env fuel fd buf w)
  send-Relayed fuel buf w no_flow is = (send-Meets env r open_fd fuel buf no_flow).run w is

-- Where the first word of a read set is the id of an open socket, and other threads keep the table
-- of quiet sockets and spare this one, `select` on it alone with any fuel but 0 returns 0 without
-- waiting.
select-read :
    (env : Env) (n fuel : ℕ) (fds : FdSet) (w : World)
    → Respects (IsTable n) env
    → first_word fds < n
    → IsTable n w.sockets
    → Post (IsTable n) (λ _. ⊥) (λ v _. v ≡ 0) (select env (suc fuel) (some fds) none w)
select-read env n fuel fds w r h is = (select-Meets env r fuel fds h).run w is
