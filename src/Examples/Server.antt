-- ===== src/Examples/Server.antt =====
-- The client against an abstract server that puts down what it is asked to do, is busy at every
-- other call, and refuses to remove a directory.
use power_boot.Prelude.{
  ℕ, zero, suc, ◌<◌, ◌≡◌, refl, Bool, true, false, not, some, List, [], ◌∷◌, arith,
}
use power_boot.Prelude.Text.{codes}
use power_boot.World.Session.{Rc, failed}
use power_boot.World.Calls.{SshCall, SshReply, Call}
use power_boot.Effects.{Env}
use power_boot.Sftp.{is_again}
use power_boot.Sftp.Operations.{Operation}
use power_boot.Sftp.Server.{
  Server, Serves, asked_again, perform_all, apply_all, state_behind, Ended,
}
use power_boot.Sftp.Server.Applied.{perform_all-Ended}
use power_boot.Examples.Net.{ok_reply, one_socket}
use power_boot.Examples.Sftp.{in_main}

abbrev is_even_list : List Call → Bool
is_even_list [] = true
is_even_list (c ∷ t) = not (is_even_list t)

abbrev is_rmdir : SshCall → Bool
is_rmdir (SshCall.sftp_rmdir path) = true
is_rmdir _ = false

abbrev scribe : Server (List SshCall)
scribe = record {
  start = [];
  apply = λ c s. c ∷ s;
  refuses = λ s c. is_rmdir c;
  is_busy = λ t c. is_even_list t;
}

abbrev scribe_reply : (busy refused : Bool) → SshReply
scribe_reply true refused = record ok_reply { rc = Rc.again }
scribe_reply false true = record ok_reply { rc = failed 31 }
scribe_reply false false = ok_reply

abbrev before_scribe : Env
before_scribe = record in_main {
  ssh_reply = λ w c. scribe_reply (is_even_list w.trace) (is_rmdir c);
}

reply_again : (b r : Bool) → is_again (scribe_reply b r).rc ≡ b
reply_again true r = refl
reply_again false true = refl
reply_again false false = refl

reply_text : (b r : Bool) → (scribe_reply b r).text ≡ some (codes "password")
reply_text true r = refl
reply_text false true = refl
reply_text false false = refl

scribe-Serves : Serves scribe before_scribe 2
scribe-Serves = record {
  again = λ w c. reply_again (is_even_list w.trace) (is_rmdir c);
  fine = λ w c free takes. rw (free, takes);
  refused = λ w c free refusal. (31, rw (free, refusal));
  text = λ w session. (codes "password", reply_text (is_even_list w.trace) false);
  alone = λ w. refl;
  undirected = λ w. refl;
  resumes = λ w. refl;
  settles = λ t c. settled t c (is_even_list t) refl;
}
  where
    settled :
        (t : List Call) (c : SshCall) (b : Bool)
        → is_even_list t ≡ b
        → (k : ℕ) × (k < 2)
          × ((i : ℕ) → i < k → is_even_list (asked_again i c t) ≡ true)
          × (is_even_list (asked_again k c t) ≡ false)
    settled t c false e = (0, omega arith, (λ i h. absurd (omega arith)), e)
    settled t c true e = (1, omega arith, once, rw e)
      where
        once : (i : ℕ) → i < 1 → is_even_list (asked_again i c t) ≡ true
        once zero h = e
        once (suc i) h = absurd (omega arith)

abbrev errands : List Operation
errands =
    Operation.mkdir (codes "d") 7
    ∷ Operation.file_write 3 (codes "ab")
    ∷ Operation.rmdir (codes "d")
    ∷ Operation.file_close 3
    ∷ []

perform_all-Ended_example :
    Ended scribe
      (apply_all scribe errands (state_behind scribe one_socket.trace))
      (perform_all before_scribe 2 errands one_socket)
perform_all-Ended_example = perform_all-Ended scribe-Serves 2 (omega arith) refl errands one_socket
