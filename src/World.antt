-- ===== src/World.antt =====
-- The state that the threads of the program share, and the calls that leave it: of Open Transport,
-- of the Thread Manager and of libssh2.
pub mod Sockets
pub mod Session
pub mod Calls
use power_boot.Prelude.{ℕ, suc, Bool, List, [], ◌∷◌, Option, none, some, ◌==◌, if◌then◌else◌}
use power_boot.Prelude.Text.{Text}
use Sockets.{Socket}
use Session.{Sftp}
use Calls.{Thread, Call}

-- `sockets` is `openSockets`: the objects by their ids. The map holds pointers; no entry is ever
-- replaced or erased, no object is in two entries, and one is reached only through its entry, so
-- the object stands in its entry.
pub record World : Type 0 where
  pub sockets : List (ℕ × Socket)
  pub finished : Bool  -- of connect.cpp
  pub sftp : Sftp
  pub stdout : List Text  -- what `printf` was given, newest first
  pub ended : List Thread  -- the threads that were disposed of, newest first
  pub trace : List Call  -- the foreign calls made so far, newest first
  pub ticks : ℕ  -- the times that a thread has yielded

-- `at`, `insert` and the update of an object in the table.
unfoldable pub lookup : ℕ → List (ℕ × Socket) → Option Socket
lookup k [] = none
lookup k ((j, s) ∷ t) = if j == k then some s else lookup k t

unfoldable pub update : ℕ → (Socket → Socket) → List (ℕ × Socket) → List (ℕ × Socket)
update k f [] = []
update k f ((j, s) ∷ t) = (j, if j == k then f s else s) ∷ update k f t

-- `insert` keeps an entry that is there already.
unfoldable pub insert : ℕ → Socket → List (ℕ × Socket) → List (ℕ × Socket)
insert k s [] = (k, s) ∷ []
insert k s ((j, r) ∷ t) = if j == k then (j, r) ∷ t else (j, r) ∷ insert k s t
