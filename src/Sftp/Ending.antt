-- ===== src/Sftp/Ending.antt =====
-- The destructor of the client, `end_session`, call by call.
use power_boot.Prelude.{
  ℕ, zero, suc, ◌<◌, ◌≡◌, refl, ap, ◌∙◌, Bool, true, false, Option, none, some, List, ◌∷◌, ◌++◌,
  arith, replicate,
}
use power_boot.World.{World}
use power_boot.World.Session.{Rc}
use power_boot.World.Calls.{SshCall, Call, ssh}
use power_boot.Effects.{Env, done, M, pure, ◌>>=◌, ◌>>◌, skip, get, ssh_call}
use power_boot.Effects.Steps.{Resumes, then-done, ssh_call-done}
use power_boot.Sftp.{is_again}
use power_boot.Sftp.Session.{disconnect_loop, end_session}

-- The other threads leave the client and the list of calls alone, and spare this one.
pub record IsAloof (env : Env) : Type 0 where
  pub same_sftp : (w : World) → (env.interfere w).sftp ≡ w.sftp
  pub same_trace : (w : World) → (env.interfere w).trace ≡ w.trace
  pub resumes : Resumes env

-- The call that the loop of the destructor makes.
abbrev hang_up : World → SshCall
hang_up w = SshCall.session_disconnect w.sftp.session

module _ (env : Env) where
  -- Behind a call of libssh2.
  abbrev pub past : SshCall → World → World
  past call w = env.interfere (record w { trace = ssh call ∷ w.trace })

  -- The status of that call, and the state behind `k` of them.
  abbrev pub hang_up_rc : World → Rc
  hang_up_rc w = (env.ssh_reply w (hang_up w)).rc

  abbrev pub hang_ups : ℕ → World → World
  hang_ups zero w = w
  hang_ups (suc k) w = hang_ups k (past (hang_up w) w)

  proceed : ℕ → Bool → M (Unit {0})
  proceed fuel b = elim b [ true ↦ disconnect_loop env fuel | false ↦ skip ]

  -- Behind the first two calls of the destructor.
  abbrev pub shut : World → World
  shut w = past SshCall.sftp_shutdown (past (SshCall.sftp_close w.sftp.sftp_handle) w)

  -- Behind the loop and the call that frees the session.
  abbrev freed : ℕ → ℕ → World → World
  freed p k w = past (SshCall.session_free (some p)) (hang_ups (suc k) (shut w))

  -- `end_session` from its test of the session on.
  release : ℕ → Option ℕ → M (Unit {0})
  release fuel session = elim session [
    | none ↦ skip
    | some p ↦ disconnect_loop env fuel >> ssh_call env (SshCall.session_free (some p)) >> skip
  ]

  leave : M (Unit {0})
  leave = do
    w ← get
    ssh_call env (SshCall.socket_close w.sftp.sock)
    ssh_call env SshCall.exit
    skip

module _ (env : Env) (go : Resumes env) where
  disconnect_loop-step :
      (fuel : ℕ) (w : World)
      → disconnect_loop env (suc fuel) w
        ≡ proceed env fuel (is_again (hang_up_rc env w)) (past env (hang_up w) w)
  unfolding disconnect_loop proceed ◌>>=◌ ◌>>◌ get
  disconnect_loop-step fuel w = rw (ssh_call-done env go (hang_up w) w)

  disconnect_loop-done :
      (k fuel : ℕ) (w : World)
      → k < fuel
      → ((i : ℕ) → i < k → is_again (hang_up_rc env (hang_ups env i w)) ≡ true)
      → is_again (hang_up_rc env (hang_ups env k w)) ≡ false
      → disconnect_loop env fuel w ≡ done tt (hang_ups env (suc k) w)
  unfolding proceed skip pure
  disconnect_loop-done k zero w lt busy last = absurd (omega arith)
  disconnect_loop-done zero (suc fuel) w lt busy last =
      disconnect_loop-step fuel w ∙ ap (λ b. proceed env fuel b (past env (hang_up w) w)) last
  disconnect_loop-done (suc k) (suc fuel) w lt busy last =
      disconnect_loop-step fuel w
      ∙ ap (λ b. proceed env fuel b (past env (hang_up w) w)) (busy 0 (omega arith))
      ∙ disconnect_loop-done k fuel (past env (hang_up w) w) (omega arith)
          (λ i h. busy (suc i) (omega arith)) last

  end_session-step :
      (fuel : ℕ) (w : World)
      → end_session env fuel w
        ≡ (release env fuel (shut env w).sftp.session >> leave env) (shut env w)
  unfolding end_session release leave ◌>>=◌ ◌>>◌ get
  end_session-step fuel w = simp (ssh_call-done env go)

  release-done :
      (p k fuel : ℕ) (w : World)
      → k < fuel
      → ((i : ℕ) → i < k → is_again (hang_up_rc env (hang_ups env i w)) ≡ true)
      → is_again (hang_up_rc env (hang_ups env k w)) ≡ false
      → release env fuel (some p) w
        ≡ done tt (past env (SshCall.session_free (some p)) (hang_ups env (suc k) w))
  unfolding release skip pure
  release-done p k fuel w lt busy last =
      let free = ssh_call env (SshCall.session_free (some p)) in
      then-done (disconnect_loop env fuel >> free) skip w (
        then-done (disconnect_loop env fuel) free w (disconnect_loop-done k fuel w lt busy last)
        ∙ ssh_call-done env go (SshCall.session_free (some p)) (hang_ups env (suc k) w))

  leave-done :
      (w : World)
      → leave env w
        ≡ done tt (past env SshCall.exit (past env (SshCall.socket_close w.sftp.sock) w))
  unfolding leave ◌>>=◌ ◌>>◌ get skip pure
  leave-done w = simp (ssh_call-done env go)

  end_session-done :
      (p k fuel : ℕ) (w : World)
      → (shut env w).sftp.session ≡ some p
      → k < fuel
      → ((i : ℕ) → i < k → is_again (hang_up_rc env (hang_ups env i (shut env w))) ≡ true)
      → is_again (hang_up_rc env (hang_ups env k (shut env w))) ≡ false
      → end_session env fuel w
        ≡ done tt (
            past env SshCall.exit
              (past env (SshCall.socket_close (freed env p k w).sftp.sock) (freed env p k w)))
  end_session-done p k fuel w live lt busy last =
      end_session-step fuel w
      ∙ then-done (release env fuel (shut env w).sftp.session) (leave env) (shut env w) (
          ap (λ s. release env fuel s (shut env w)) live
          ∙ release-done p k fuel (shut env w) lt busy last)
      ∙ leave-done (freed env p k w)

replicate-shift :
    {A : Type 0} (k : ℕ) (x : A) (xs : List A) → replicate k x ++ x ∷ xs ≡ x ∷ (replicate k x ++ xs)
replicate-shift zero x xs = refl
replicate-shift (suc k) x xs = ap (λ t. x ∷ t) (replicate-shift k x xs)

-- All calls up to the end of the destructor, the last one first.
abbrev pub farewell : ℕ → ℕ → World → List Call
farewell p k w =
    ssh SshCall.exit
      ∷ ssh (SshCall.socket_close w.sftp.sock)
      ∷ ssh (SshCall.session_free (some p))
      ∷ replicate (suc k) (ssh (SshCall.session_disconnect (some p)))
    ++ ssh SshCall.sftp_shutdown ∷ ssh (SshCall.sftp_close w.sftp.sftp_handle) ∷ w.trace

module _ {env : Env} (aloof : IsAloof env) where
  hang_ups-sftp : (k : ℕ) (w : World) → (hang_ups env k w).sftp ≡ w.sftp
  hang_ups-sftp zero w = refl
  hang_ups-sftp (suc k) w = hang_ups-sftp k (past env (hang_up w) w) ∙ aloof.same_sftp _

  hang_ups-trace :
      (k : ℕ) (w : World) → (hang_ups env k w).trace ≡ replicate k (ssh (hang_up w)) ++ w.trace
  hang_ups-trace zero w = refl
  hang_ups-trace (suc k) w =
      hang_ups-trace k (past env (hang_up w) w)
      ∙ rw (aloof.same_sftp _, aloof.same_trace _) (replicate-shift k (ssh (hang_up w)) w.trace)

  shut-sftp : (w : World) → (shut env w).sftp ≡ w.sftp
  shut-sftp w = aloof.same_sftp _ ∙ aloof.same_sftp _

  shut-trace :
      (w : World)
      → (shut env w).trace
        ≡ ssh SshCall.sftp_shutdown ∷ ssh (SshCall.sftp_close w.sftp.sftp_handle) ∷ w.trace
  shut-trace w = aloof.same_trace _ ∙ ap (λ t. ssh SshCall.sftp_shutdown ∷ t) (aloof.same_trace _)

  freed-sftp : (p k : ℕ) (w : World) → (freed env p k w).sftp ≡ w.sftp
  freed-sftp p k w = aloof.same_sftp _ ∙ hang_ups-sftp (suc k) (shut env w) ∙ shut-sftp w

  freed-trace :
      (p k : ℕ) (w : World)
      → w.sftp.session ≡ some p
      → (freed env p k w).trace
        ≡ ssh (SshCall.session_free (some p))
            ∷ replicate (suc k) (ssh (SshCall.session_disconnect (some p)))
          ++ ssh SshCall.sftp_shutdown ∷ ssh (SshCall.sftp_close w.sftp.sftp_handle) ∷ w.trace
  freed-trace p k w live =
      let session : (shut env w).sftp.session ≡ some p = ap (λ s. s.session) (shut-sftp w) ∙ live in
      aloof.same_trace _
      ∙ ap (λ t. ssh (SshCall.session_free (some p)) ∷ t)
          (hang_ups-trace (suc k) (shut env w)
            ∙ ap (λ s. replicate (suc k) (ssh (SshCall.session_disconnect s)) ++ (shut env w).trace)
                session
            ∙ ap (λ t. replicate (suc k) (ssh (SshCall.session_disconnect (some p))) ++ t)
                (shut-trace w))

  -- Where the other threads leave the client, the list of calls and this thread alone, the client
  -- has a session, and libssh2 answers its disconnection with LIBSSH2_ERROR_EAGAIN `k` times and
  -- then otherwise: the destructor with more fuel than `k` comes to its end, with these calls
  -- behind the earlier ones: the file and the SFTP session are closed, the session is disconnected
  -- `k + 1` times in a row and then freed, the socket is closed, and libssh2 is left.
  pub end_session-ordered :
      (p k fuel : ℕ) (w : World)
      → w.sftp.session ≡ some p
      → k < fuel
      → ((i : ℕ) → i < k → is_again (hang_up_rc env (hang_ups env i (shut env w))) ≡ true)
      → is_again (hang_up_rc env (hang_ups env k (shut env w))) ≡ false
      → (w' : World) × ((end_session env fuel w ≡ done tt w') × (w'.trace ≡ farewell p k w))
  end_session-ordered p k fuel w live lt busy last = (
    _,
    (
      end_session-done env aloof.resumes p k fuel w (ap (λ s. s.session) (shut-sftp w) ∙ live) lt
          busy last,
      aloof.same_trace _
          ∙ ap (λ t. ssh SshCall.exit ∷ t)
              (aloof.same_trace _
                ∙ ap (λ s. ssh (SshCall.socket_close s.sock) ∷ (freed env p k w).trace)
                    (freed-sftp p k w)
                ∙ ap (λ t. ssh (SshCall.socket_close w.sftp.sock) ∷ t) (freed-trace p k w live)),
    ),
  )
