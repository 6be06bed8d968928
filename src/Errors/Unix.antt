-- ===== src/Errors/Unix.antt =====
-- PowerNet/src/socket/internal.cpp, `__throw_os_err`: the errors that Open Transport names after
-- the first UNIX ones. A constructor is a `case` label without its `k`, `kOT` and `Err`.
use Prim.Native.String.{String}
use power_boot.Prelude.{List, [], ◌∷◌}

pub data UnixErr : Type 0 where
  eperm enorsrc eintr eio enxio ebadf eagain eacces efault ebusy enodev einval enotty : UnixErr
  epipe erange ewouldblock ealready enotsock edestaddrreq emsgsize eprototype enoprotoopt : UnixErr
  eprotonosupport esocktnosupport eopnotsupp : UnixErr

-- The name that the message ends in.
unfoldable pub unix_name : UnixErr → String
unix_name eperm = "kEPERMErr"
unix_name enorsrc = "kENORSRCErr"
unix_name eintr = "kEINTRErr"
unix_name eio = "kEIOErr"
unix_name enxio = "kENXIOErr"
unix_name ebadf = "kEBADFErr"
unix_name eagain = "kEAGAINErr"
unix_name eacces = "kEACCESErr"
unix_name efault = "kEFAULTErr"
unix_name ebusy = "kEBUSYErr"
unix_name enodev = "kENODEVErr"
unix_name einval = "kEINVALErr"
unix_name enotty = "kENOTTYErr"
unix_name epipe = "kEPIPEErr"
unix_name erange = "kERANGEErr"
unix_name ewouldblock = "kEWOULDBLOCKErr or kEDEADLKErr"
unix_name ealready = "kEALREADYErr"
unix_name enotsock = "kENOTSOCKErr"
unix_name edestaddrreq = "kEDESTADDRREQErr"
unix_name emsgsize = "kEMSGSIZEErr"
unix_name eprototype = "kEPROTOTYPEErr"
unix_name enoprotoopt = "kENOPROTOOPTErr"
unix_name eprotonosupport = "kEPROTONOSUPPORTErr"
unix_name esocktnosupport = "kESOCKTNOSUPPORTErr"
unix_name eopnotsupp = "kEOPNOTSUPPErr"

abbrev pub unix_errors : List UnixErr
unix_errors =
    eperm ∷ enorsrc ∷ eintr ∷ eio ∷ enxio ∷ ebadf ∷ eagain ∷ eacces ∷ efault ∷ ebusy ∷ enodev
    ∷ einval ∷ enotty ∷ epipe ∷ erange ∷ ewouldblock ∷ ealready ∷ enotsock ∷ edestaddrreq ∷ emsgsize
    ∷ eprototype ∷ enoprotoopt ∷ eprotonosupport ∷ esocktnosupport ∷ eopnotsupp ∷ []
