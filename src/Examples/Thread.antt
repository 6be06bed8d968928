-- ===== src/Examples/Thread.antt =====
-- The destructor against a server that is slow to hang up, and the thread that serves a session,
-- also while another one connects.
use power_boot.Prelude.{
  ℕ, zero, suc, ◌<◌, ◌≡◌, refl, true, some, [], ◌∷◌, length, ◌==◌, arith, if◌then◌else◌, leb,
}
use power_boot.Prelude.Text.{codes}
use power_boot.World.{World}
use power_boot.World.Session.{Rc, open_state}
use power_boot.World.Calls.{SshCall, ssh}
use power_boot.Effects.{Env, done, stopped}
use power_boot.Sftp.{is_again}
use power_boot.Sftp.Session.{end_session, connect}
use power_boot.Sftp.ReadThread.{serve}
use power_boot.Sftp.Ending.{IsAloof, hang_up_rc, hang_ups, shut, farewell, end_session-ordered}
use power_boot.Sftp.Opening.{IsClosed, started}
use power_boot.Effects.Waiting.{turns}
use power_boot.Effects.Steps.{left_by}
use power_boot.Sftp.Meeting.{OpenWithoutThread, connect-meets-serve}
use power_boot.Sftp.Serving.{init_call, Reported, serve-stopped}
use power_boot.Examples.Net.{ok_reply, one_socket}
use power_boot.Examples.Sftp.{in_main, in_read}

-- The first four calls find libssh2 busy: two of them are the loop's.
abbrev slow : Env
slow = record in_main {
  ssh_reply = λ w c. if leb 4 (length w.trace) then ok_reply else record ok_reply { rc = Rc.again };
}

slow-IsAloof : IsAloof slow
slow-IsAloof = record { same_sftp = λ w. refl; same_trace = λ w. refl; resumes = λ w. refl }

slow_twice :
    (i : ℕ) → i < 2 → is_again (hang_up_rc slow (hang_ups slow i (shut slow one_socket))) ≡ true
slow_twice zero h = refl
slow_twice (suc zero) h = refl
slow_twice (suc (suc i)) h = absurd (omega arith)

end_session-ordered_example :
    (w' : World) × ((end_session slow 3 one_socket ≡ done tt w')
      × (w'.trace ≡ farewell 1 2 one_socket))
end_session-ordered_example =
    end_session-ordered slow-IsAloof 1 2 3 one_socket refl (omega arith) slow_twice refl

in_read-IsAloof : IsAloof in_read
in_read-IsAloof = record { same_sftp = λ w. refl; same_trace = λ w. refl; resumes = λ w. refl }

serve-stopped_example :
    (w' : World) × ((serve in_read 1 one_socket ≡ stopped w')
      × ((w'.sftp.read_thread_state ≡ open_state)
          × (Reported in_read (codes "Disconnected by server.\n\n") w'
              × ((w'.sftp.sftp_pointer ≡ some 1)
                  × (w'.trace
                      ≡ ssh (SshCall.channel_open (some 1))
                        ∷ ssh (init_call in_read one_socket)
                        ∷ [])))))
serve-stopped_example = serve-stopped 1 0 one_socket in_read-IsAloof refl refl refl

-- The reading thread runs when the main thread yields for the second time.
abbrev meeting : Env
meeting = record in_main {
  interfere = λ w. if w.ticks == 2 then left_by (serve in_read 1 w) else w;
}

connect-meets-serve_example :
    (w' : World) × ((connect meeting 3 one_socket ≡ done tt w') × OpenWithoutThread w')
connect-meets-serve_example =
    connect-meets-serve meeting in_read 1 1 3 0 one_socket (λ w. refl) refl (omega arith) closed
      refl in_read-IsAloof refl refl refl
  where
    closed : (i : ℕ) → i < 2 → IsClosed (turns meeting i (started one_socket))
    closed zero h = refl
    closed (suc zero) h = refl
    closed (suc (suc i)) h = absurd (omega arith)
