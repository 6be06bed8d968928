-- ===== src/World/Sockets.antt =====
-- PowerNet/src/socket/internal.hpp: `class Socket`, and `flatten` of internal.cpp.
use power_boot.Prelude.{
  ℕ, ◌≡◌, sym, ◌∙◌, append-nil, append_assoc, Bool, false, List, [], ◌∷◌, ◌++◌, Option, none,
}
use power_boot.Prelude.Text.{Text, joined}

-- The port and the address of a `sockaddr_in`.
pub record SocketAddress : Type 0 where
  pub sin_port : ℕ
  pub s_addr : ℕ

-- A pointer is the name of what it points to. `info`, `inetsvc`, `hostDNSAddress` and `retAddr`
-- are left out: nothing writes them; of `sndCall` stands the address that `connect_thread` sets.
pub record Socket : Type 0 where
  pub halting : Bool
  pub recv_halt : Bool
  pub send_halt : Bool
  pub id : ℕ
  pub endpoint : Option ℕ
  pub cfg : Option ℕ
  pub recv_buf : List Text
  pub send_buf : List Text
  pub snd_call : Option SocketAddress

-- `new Socket()`: the object is zeroed, then its initialisers run.
abbrev pub new_socket : Socket
new_socket = record {
  halting = false;
  recv_halt = false;
  send_halt = false;
  id = 0;
  endpoint = none;
  cfg = none;
  recv_buf = [];
  send_buf = [];
  snd_call = none;
}

-- The elements of the vectors, inserted one vector after the other at the end of `result`.
flatten_loop : Text → List Text → Text
flatten_loop result [] = result
flatten_loop result (sub ∷ v) = flatten_loop (result ++ sub) v

unfoldable pub flatten : List Text → Text
unfolding flatten_loop
flatten v = flatten_loop [] v

flatten_loop-joined : (result : Text) (v : List Text) → flatten_loop result v ≡ result ++ joined v
unfolding flatten_loop
flatten_loop-joined result [] = sym (append-nil result)
flatten_loop-joined result (sub ∷ v) =
    flatten_loop-joined (result ++ sub) v ∙ append_assoc result sub (joined v)

pub flatten-joined : (v : List Text) → flatten v ≡ joined v
unfolding flatten
flatten-joined v = flatten_loop-joined [] v
