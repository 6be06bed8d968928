-- ===== src/Sftp/Protocol.antt =====
-- src/transfer/sftp/sftp.hpp: `class SFTP` and the classes of its handles, as what implements the
-- abstract classes.
use power_boot.Prelude.{ℕ, some}
use power_boot.Effects.{Env, ◌>>=◌, pure}
use power_boot.Transfer.{FileHandle, DirHandle, TransferProtocol}
use power_boot.Sftp.Files
use power_boot.Sftp.Handles
use power_boot.Sftp.Session

module _ (env : Env) (fuel : ℕ) where
  abbrev pub sftp_file_handle : FileHandle
  sftp_file_handle = record {
    read = Handles.file_read env fuel;
    rewind = Handles.file_rewind env;
    seek = Handles.file_seek env;
    tell = Handles.file_tell env;
    write = Handles.file_write env fuel;
    stat = Handles.file_stat env fuel;
    setstat = Handles.file_setstat env fuel;
    close = Handles.file_close env fuel;
    sync = Handles.file_sync env fuel;
    statvfs = Handles.file_statvfs env fuel;
  }

  abbrev pub sftp_dir_handle : DirHandle
  sftp_dir_handle = record { next = Handles.dir_next env fuel; close = Handles.dir_close env fuel }

  -- What `stat` returns is made by `new`, and so never NULL.
  abbrev pub sftp_protocol : TransferProtocol
  sftp_protocol = record {
    files = sftp_file_handle;
    dirs = sftp_dir_handle;
    connect = Session.connect env fuel;
    lstat = Files.lstat env fuel;
    mkdir = Files.mkdir env fuel;
    openfile = Files.openfile env fuel;
    opendir = Files.opendir env fuel;
    rename = Files.rename env fuel;
    rmdir = Files.rmdir env fuel;
    setstat = Files.setstat env fuel;
    shutdown = Files.shutdown env fuel;
    stat = λ path. Files.stat env fuel path >>= λ a. pure (some a);
    statvfs = Files.statvfs env fuel;
    symlink = Files.symlink env fuel;
    readlink = Files.readlink env fuel;
    realpath = Files.realpath env fuel;
    unlink = Files.unlink env fuel;
  }
