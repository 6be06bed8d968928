-- ===== src/World/Session.antt =====
-- src/transfer/sftp/sftp.hpp: the fields of `class SFTP`.
use power_boot.Prelude.{ℕ, Option}
use power_boot.Prelude.Text.{Text}

pub data ReadThreadCommand : Type 0 where
  wait read exit : ReadThreadCommand

pub data ReadThreadState : Type 0 where
  uninitialized open_state cleanup done_state : ReadThreadState

-- A status code of libssh2: a count or LIBSSH2_ERROR_NONE, LIBSSH2_ERROR_EAGAIN, or another
-- negative code by its size.
pub data Rc : Type 0 where
  ok : ℕ → Rc
  again : Rc
  failed : ℕ → Rc

-- A pointer is the name of what it points to, `none` the null pointer. Members that nothing reads
-- are left out: `i`, `auth_pw`, `fingerprint`, `total` and `spin`.
pub record Sftp : Type 0 where
  pub rc : Rc
  pub read_thread_command : ReadThreadCommand
  pub read_thread_state : ReadThreadState
  pub sock : ℕ
  pub hostaddr : ℕ
  pub sin_port : ℕ
  pub session : Option ℕ
  pub sftp_pointer : Option ℕ
  pub sftp_handle : Option ℕ
  pub channel : Option ℕ
  pub userauthlist : Option Text
