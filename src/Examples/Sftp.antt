-- ===== src/Examples/Sftp.antt =====
-- The client against a server that answers at once, and one that is busy at first.
use power_boot.Prelude.{
  ℕ, zero, suc, ◌<◌, ◌≡◌, refl, Bool, true, false, length, arith, if◌then◌else◌, leb,
}
use power_boot.Prelude.Text.{codes}
use power_boot.World.{World}
use power_boot.World.Session.{Rc}
use power_boot.World.Calls.{main_thread, read_thread, SshCall}
use power_boot.Effects.{Env, done, thrown, pure, skip}
use power_boot.Effects.Keeps.{Post, Respects, Meets-skip}
use power_boot.Net.Table.{IsTable}
use power_boot.Sftp.{is_again, is_negative, retry, rc_err_handle}
use power_boot.Sftp.Handles.{file_read, dir_next}
use power_boot.Transfer.{ConnectionOptions}
use power_boot.Sftp.ReadThread.{authenticate, read_thread_main}
use power_boot.Sftp.Outcome.{rc_err_handle-succeeds}
use power_boot.Sftp.Delivery.{
  Sized, Listed, StatCalls, file_read-Sized, dir_next-Listed, attributes-Reported,
}
use power_boot.Sftp.Thread.{Authenticated, authenticate-Authenticated}
use power_boot.Sftp.Lifetime.{read_thread-Ends}
use power_boot.Sftp.Retry.{reply, called, calls, retry-first, retry-thrown}
use power_boot.Examples.Net.{answers, calm, ok_reply, one_socket, no_attributes, one_socket-IsTable}

-- The threads of the program, over a server that answers at once.
abbrev pub in_main : Env
in_main = record (calm answers) { me = main_thread }

abbrev pub in_read : Env
in_read = record (calm answers) { me = read_thread }

in_main-Respects : Respects (IsTable 1) in_main
in_main-Respects = record { interfere = λ w p. p; resumes = λ w p. refl }

in_read-Respects : (n : ℕ) → Respects (IsTable n) in_read
in_read-Respects n = record { interfere = λ w p. p; resumes = λ w p. refl }

abbrev pub options : ConnectionOptions
options = record {
  addr = codes "192.168.1.145";
  port = 22;
  username = codes "u";
  password = codes "p";
  pubkey = codes "k.pub";
  privkey = codes "k";
}

-- The first two calls find libssh2 busy.
abbrev pub busy : (inbound : Bool) → Env
busy inbound = record (calm answers) {
  ssh_reply = λ w c. if leb 2 (length w.trace) then ok_reply else record ok_reply { rc = Rc.again };
  directions = λ w. (inbound, false);
}

skip-done : (rc : Rc) (w : World) → skip w ≡ done tt w
unfolding skip pure
skip-done rc w = refl

busy_twice :
    (i : ℕ)
    → i < 2
    → is_again
        (reply
          (busy false)
          (λ _ w. w)
          SshCall.sftp_shutdown
          (calls (busy false) (λ _ w. w) SshCall.sftp_shutdown i one_socket)).rc
      ≡ true
busy_twice zero h = refl
busy_twice (suc zero) h = refl
busy_twice (suc (suc i)) h = absurd (omega arith)

retry-first_example :
    retry (busy false) 3 4 (λ _. skip) SshCall.sftp_shutdown one_socket
    ≡ done ok_reply (
        called
          (busy false)
          (λ _ w. w)
          SshCall.sftp_shutdown
          (calls (busy false) (λ _ w. w) SshCall.sftp_shutdown 2 one_socket))
retry-first_example =
    retry-first (busy false) (λ _ w. w) SshCall.sftp_shutdown (λ _. skip) skip-done (λ _. refl)
      (λ w. refl) 4 2 3 one_socket (omega arith) busy_twice refl

retry-thrown_example :
    retry (busy true) 3 4 (λ _. skip) SshCall.sftp_shutdown one_socket
    ≡ thrown (called (busy true) (λ _ w. w) SshCall.sftp_shutdown one_socket)
retry-thrown_example =
    retry-thrown (busy true) (λ _ w. w) SshCall.sftp_shutdown (λ _. skip) skip-done (λ w. refl) 2 4
      one_socket refl refl (omega arith) one_socket-IsTable (omega arith)

pub one_open : IsTable 1 one_socket.sockets
one_open = record { counts = one_socket-IsTable.counts; enough = omega arith }

rc_err_handle-succeeds_example :
    Post
      (IsTable 1)
      (IsTable 1)
      (λ a _.
        (is_negative a.rc ≡ false)
        × ((w : World) × (a ≡ in_main.ssh_reply w SshCall.sftp_shutdown)))
      (rc_err_handle in_main 3 (λ _. skip) (codes "shutdown") SshCall.sftp_shutdown one_socket)
rc_err_handle-succeeds_example =
    rc_err_handle-succeeds in_main-Respects 3 (λ _. skip) (codes "shutdown") SshCall.sftp_shutdown
      one_socket (λ _. Meets-skip) refl one_open

file_read-Sized_example :
    Post (IsTable 1) (IsTable 1) (λ out _. Sized in_main 7 out) (file_read in_main 3 7 one_socket)
file_read-Sized_example = file_read-Sized in_main-Respects refl 3 7 one_socket one_open

dir_next-Listed_example :
    Post (IsTable 1) (IsTable 1) (λ o _. Listed in_main 7 o) (dir_next in_main 3 7 one_socket)
dir_next-Listed_example = dir_next-Listed in_main-Respects refl 3 7 one_socket one_open

attributes-Reported_example : StatCalls (IsTable 1) in_main 3 (codes "a") no_attributes one_socket
attributes-Reported_example =
    attributes-Reported in_main-Respects refl 3 (codes "a") no_attributes one_socket one_open

authenticate-Authenticated_example :
    Post
      (IsTable 1)
      (IsTable 1)
      (λ _ _. Authenticated in_read options (codes "password"))
      (authenticate in_read options (Rc.ok 0) (codes "password") one_socket)
authenticate-Authenticated_example =
    authenticate-Authenticated (in_read-Respects 1) options (Rc.ok 0) (codes "password") one_socket
      refl one_open

read_thread-Ends_example :
    Post (IsTable 0) (IsTable 0) (λ _ _. ⊥) (read_thread_main in_read 5 options one_socket)
read_thread-Ends_example =
    read_thread-Ends in_read-Respects 5 options one_socket refl refl one_socket-IsTable
