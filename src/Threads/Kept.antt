-- ===== src/Threads/Kept.antt =====
-- What lasts over one write to a socket, to the table of sockets or to the client.
use power_boot.Prelude.{ℕ, refl, inl, inr, [], ◌∷◌, ◌==◌, Bool-cases}
use power_boot.World.{lookup, update, insert}
use power_boot.World.Sockets.{Socket}
use power_boot.World.Session.{Sftp}
use power_boot.Net.Table.{Table, KeepsQuiet}
use power_boot.Threads.{
  Write, set_halting, set_send_halt, clear_recv_halt, empty_recv_buf, empty_send_buf, set_snd_call,
  write, Assign, set_rc, set_sock, set_hostaddr, set_sin_port, set_session, set_sftp_pointer,
  set_channel, set_userauthlist, set_open, assign,
}
use power_boot.Threads.Lasting.{IsSameSocket, IsSameSocket-refl, IsKept, IsKept-refl, IsSameClient}

pub write-IsSameSocket : (c : Write) (s : Socket) → IsSameSocket s (write c s)
write-IsSameSocket (set_halting b) s = record { id = refl; endpoint = refl; cfg = refl }
write-IsSameSocket (set_send_halt b) s = record { id = refl; endpoint = refl; cfg = refl }
write-IsSameSocket clear_recv_halt s = record { id = refl; endpoint = refl; cfg = refl }
write-IsSameSocket empty_recv_buf s = record { id = refl; endpoint = refl; cfg = refl }
write-IsSameSocket empty_send_buf s = record { id = refl; endpoint = refl; cfg = refl }
write-IsSameSocket (set_snd_call a) s = record { id = refl; endpoint = refl; cfg = refl }

pub write-KeepsQuiet : (c : Write) → KeepsQuiet (write c)
write-KeepsQuiet (set_halting b) s q =
    (refl, record { no_halt = q.no_halt; no_recv = q.no_recv; no_send = q.no_send })
write-KeepsQuiet (set_send_halt b) s q =
    (refl, record { no_halt = q.no_halt; no_recv = q.no_recv; no_send = q.no_send })
write-KeepsQuiet clear_recv_halt s q =
    (refl, record { no_halt = refl; no_recv = q.no_recv; no_send = q.no_send })
write-KeepsQuiet empty_recv_buf s q =
    (refl, record { no_halt = q.no_halt; no_recv = refl; no_send = q.no_send })
write-KeepsQuiet empty_send_buf s q =
    (refl, record { no_halt = q.no_halt; no_recv = q.no_recv; no_send = refl })
write-KeepsQuiet (set_snd_call a) s q =
    (refl, record { no_halt = q.no_halt; no_recv = q.no_recv; no_send = q.no_send })

pub update-IsKept :
    (k fd : ℕ) (f : Socket → Socket) (t : Table)
    → ((r : Socket) → IsSameSocket r (f r))
    → IsKept (lookup fd t) (lookup fd (update k f t))
unfolding lookup update
update-IsKept k fd f [] same = tt
update-IsKept k fd f ((j, r) ∷ t) same = elim (Bool-cases (j == fd)) [
  | inl b ↦
      rw b
        (elim (Bool-cases (j == k)) [ inl c ↦ rw c (same r) | inr c ↦ rw c (IsSameSocket-refl r) ])
  | inr b ↦ rw b (update-IsKept k fd f t same)
]

pub insert-IsKept :
    (k fd : ℕ) (s : Socket) (t : Table) → IsKept (lookup fd t) (lookup fd (insert k s t))
unfolding lookup insert
insert-IsKept k fd s [] = tt
insert-IsKept k fd s ((j, r) ∷ t) = elim (Bool-cases (j == k)) [
  | inl c ↦ rw c (IsKept-refl (lookup fd ((j, r) ∷ t)))
  | inr c ↦ rw c (elim (Bool-cases (j == fd)) [
    | inl b ↦ rw b (IsSameSocket-refl r)
    | inr b ↦ rw b (insert-IsKept k fd s t)
  ])
]

pub assign-IsSameClient : (a : Assign) (s : Sftp) → IsSameClient s (assign a s)
assign-IsSameClient (set_rc c) s = record { command = refl; handle = refl; stays_open = λ e. e }
assign-IsSameClient (set_sock n) s = record { command = refl; handle = refl; stays_open = λ e. e }
assign-IsSameClient (set_hostaddr n) s = record {
  command = refl;
  handle = refl;
  stays_open = λ e. e;
}
assign-IsSameClient (set_sin_port n) s = record {
  command = refl;
  handle = refl;
  stays_open = λ e. e;
}
assign-IsSameClient (set_session p) s = record {
  command = refl;
  handle = refl;
  stays_open = λ e. e;
}
assign-IsSameClient (set_sftp_pointer p) s = record {
  command = refl;
  handle = refl;
  stays_open = λ e. e;
}
assign-IsSameClient (set_channel p) s = record {
  command = refl;
  handle = refl;
  stays_open = λ e. e;
}
assign-IsSameClient (set_userauthlist t) s = record {
  command = refl;
  handle = refl;
  stays_open = λ e. e;
}
assign-IsSameClient set_open s = record { command = refl; handle = refl; stays_open = λ e. refl }
