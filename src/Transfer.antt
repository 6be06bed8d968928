-- ===== src/Transfer.antt =====
-- src/transfer/transfer.hpp: the data and the abstract classes of a transfer protocol, each class
-- as the record of its methods. The object of a handle is named by its pointer; a pointer that the
-- program compares with NULL is an option. `FileAttributes` and `VfsAttributes` stand for
-- `Attributes` and `StatVFS`, whose methods each give out one field.
use power_boot.Prelude.{ℕ, Option}
use power_boot.Prelude.Text.{Text}
use power_boot.World.Calls.{FileAttributes, VfsAttributes}
use power_boot.Effects.{M}

-- `class ConnectionOptions`; nothing reads `sftppath`.
pub record ConnectionOptions : Type 0 where
  pub addr : Text
  pub port : ℕ
  pub username : Text
  pub password : Text
  pub pubkey : Text
  pub privkey : Text

-- `class File`
pub record File : Type 0 where
  pub buffer : Text
  pub longentry : Text
  pub attributes : FileAttributes

-- `class FileHandle`
pub record FileHandle : Type 0 where
  pub read : (handle : ℕ) → M Text
  pub rewind : (handle : ℕ) → M (Unit {0})
  pub seek : (handle offset : ℕ) → M (Unit {0})
  pub tell : (handle : ℕ) → M ℕ
  pub write : (handle : ℕ) (buf : Text) → M (Unit {0})
  pub stat : (handle : ℕ) → M FileAttributes
  pub setstat : (handle : ℕ) → FileAttributes → M (Unit {0})
  pub close : (handle : ℕ) → M (Unit {0})
  pub sync : (handle : ℕ) → M (Unit {0})
  pub statvfs : (handle : ℕ) → M VfsAttributes

-- `class DirHandle`
pub record DirHandle : Type 0 where
  pub next : (handle : ℕ) → M (Option File)
  pub close : (handle : ℕ) → M (Unit {0})

-- `class TransferProtocol`, with the classes of the objects that it opens. `connect` is that on the
-- options of the program.
pub record TransferProtocol : Type 0 where
  pub files : FileHandle
  pub dirs : DirHandle
  pub connect : M (Unit {0})
  pub lstat : (path : Text) → FileAttributes → M FileAttributes
  pub mkdir : (path : Text) (mode : ℕ) → M (Unit {0})
  pub openfile : (filename : Text) (flags mode : ℕ) → M ℕ
  pub opendir : (filename : Text) → M ℕ
  pub rename : (sourcefile destfile : Text) → M (Unit {0})
  pub rmdir : (path : Text) → M (Unit {0})
  pub setstat : (path : Text) → FileAttributes → M (Unit {0})
  pub shutdown : M (Unit {0})
  pub stat : (path : Text) → M (Option FileAttributes)
  pub statvfs : (path : Text) → M VfsAttributes
  pub symlink : (path target : Text) → M (Unit {0})
  pub readlink : (path target : Text) → M (Unit {0})
  pub realpath : (path target : Text) → M (Unit {0})
  pub unlink : (filename : Text) → M (Unit {0})
