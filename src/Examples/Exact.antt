-- ===== src/Examples/Exact.antt =====
-- The client call by call: against a server that is busy at first, and one that refuses.
use power_boot.Prelude.{
  ℕ, zero, suc, ◌<◌, ◌≡◌, refl, true, false, some, [], ◌∷◌, ◌++◌, arith, if◌then◌else◌, leb,
}
use power_boot.Prelude.Text.{codes}
use power_boot.World.{World}
use power_boot.World.Session.{Rc, ReadThreadState}
use power_boot.World.Calls.{main_thread, SshCall}
use power_boot.Effects.{Env, done, stopped}
use power_boot.Sftp.{is_again}
use power_boot.Sftp.Handles.{file_read}
use power_boot.Sftp.Session.{connect}
use power_boot.Sftp.Retry.{reply, calls}
use power_boot.Sftp.Exact.{Settles, asked, reported}
use power_boot.Sftp.Operations.{Operation, perform}
use power_boot.Sftp.Performed.{behind_last, report_of, perform-done, perform-stopped}
use power_boot.Sftp.Reading.{aside, behind, file_read-done}
use power_boot.Sftp.Opening.{IsClosed, started, connect-done}
use power_boot.Effects.Waiting.{turns}
use power_boot.Examples.Net.{ok_reply, one_socket, no_attributes}
use power_boot.Examples.Sftp.{in_main, busy}

busy_calls :
    (call : SshCall) (i : ℕ)
    → i < 2
    → is_again (reply (busy false) aside call (calls (busy false) aside call i one_socket)).rc
      ≡ true
busy_calls call zero h = refl
busy_calls call (suc zero) h = refl
busy_calls call (suc (suc i)) h = absurd (omega arith)

busy_Settles : (call : SshCall) → Settles (busy false) aside call 2 one_socket
busy_Settles call = record { busy = busy_calls call; last = refl }

perform-done_example :
    perform (busy false) 3 (Operation.file_sync 7) one_socket
    ≡ done tt (behind_last (busy false) (Operation.file_sync 7) 2 one_socket)
perform-done_example =
    perform-done (busy false) (Operation.file_sync 7) (λ w. refl) (λ w. refl) 2 3 one_socket
      (omega arith) (busy_Settles (SshCall.file_fsync 7)) refl

-- Every call fails with LIBSSH2_ERROR_SFTP_PROTOCOL.
abbrev refusing : Env
refusing = record in_main {
  ssh_reply = λ w c. record ok_reply { rc = Rc.failed 31; text = some (codes "no") };
}

abbrev make_home : Operation
make_home = Operation.mkdir (codes "home") 493

perform-stopped_example :
    let after =
      reported refusing
        (report_of make_home (codes "no") 31)
        (asked refusing (behind_last refusing make_home 0 one_socket)) in
    perform refusing 1 make_home one_socket
    ≡ stopped (record after { ended = main_thread ∷ after.ended })
perform-stopped_example =
    perform-stopped refusing make_home (λ w. refl) (λ w. refl) 0 1 one_socket (omega arith)
      (record { busy = λ i h. absurd (omega arith); last = refl }) 31 (codes "no") refl refl refl

-- Files of four bytes, of which two come.
abbrev short_reads : Env
short_reads = record in_main {
  ssh_reply = λ w c. record ok_reply {
    attributes = record no_attributes { filesize = 4 };
    text = some (codes "ab");
  };
}

at_once : (call : SshCall) (w : World) → Settles short_reads aside call 0 w
at_once call w = record { busy = λ i h. absurd (omega arith); last = refl }

file_read-done_example :
    file_read short_reads 1 7 one_socket
    ≡ done (codes "ab" ++ 170 ∷ 170 ∷ []) (
        behind short_reads
          (SshCall.file_read 7 4)
          0
          (behind short_reads (SshCall.file_fstat 7) 0 one_socket))
file_read-done_example =
    file_read-done short_reads (λ w. refl) (λ w. refl) 7 0 0 1 one_socket (codes "ab") (omega arith)
      (omega arith) (at_once (SshCall.file_fstat 7) one_socket) refl
      (at_once (SshCall.file_read 7 4) _) refl refl (omega arith)

-- The other thread opens the session in the second yield.
abbrev pub opening : Env
opening = record in_main {
  interfere = λ w. record w {
    sftp =
        if leb 2 w.ticks
        then record w.sftp { read_thread_state = ReadThreadState.open_state }
        else w.sftp;
  };
}

connect-done_example : connect opening 3 one_socket ≡ done tt (turns opening 2 (started one_socket))
connect-done_example =
    connect-done opening (λ w. refl) 2 3 one_socket refl (omega arith) closed refl
  where
    closed : (i : ℕ) → i < 2 → IsClosed (turns opening i (started one_socket))
    closed zero h = refl
    closed (suc zero) h = refl
    closed (suc (suc i)) h = absurd (omega arith)
