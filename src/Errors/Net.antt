-- ===== src/Errors/Net.antt =====
-- PowerNet/src/socket/internal.cpp, `__throw_os_err`: the errors that Open Transport names after
-- the network and stream ones of UNIX. A constructor is a `case` label without its `k`, `kOT` and
-- `Err`.
use Prim.Native.String.{String}
use power_boot.Prelude.{List, [], ◌∷◌}

pub data NetErr : Type 0 where
  eaddrinuse eaddrnotavail enetdown enetunreach enetreset econnaborted econnreset enobufs : NetErr
  eisconn enotconn eshutdown etoomanyrefs etimedout econnrefused ehostdown ehostunreach : NetErr
  eproto etime enosr ebadmsg ecancel enostr enodata einprogress esrch enomsg : NetErr

-- The name that the message ends in.
unfoldable pub net_name : NetErr → String
net_name eaddrinuse = "kEADDRINUSEErr"
net_name eaddrnotavail = "kEADDRNOTAVAILErr"
net_name enetdown = "kENETDOWNErr"
net_name enetunreach = "kENETUNREACHErr"
net_name enetreset = "kENETRESETErr"
net_name econnaborted = "kECONNABORTEDErr"
net_name econnreset = "kECONNRESETErr"
net_name enobufs = "kENOBUFSErr"
net_name eisconn = "kEISCONNErr"
net_name enotconn = "kENOTCONNErr"
net_name eshutdown = "kESHUTDOWNErr"
net_name etoomanyrefs = "kETOOMANYREFSErr"
net_name etimedout = "kETIMEDOUTErr"
net_name econnrefused = "kECONNREFUSEDErr"
net_name ehostdown = "kEHOSTDOWNErr"
net_name ehostunreach = "kEHOSTUNREACHErr"
net_name eproto = "kEPROTOErr"
net_name etime = "kETIMEErr"
net_name enosr = "kENOSRErr"
net_name ebadmsg = "kEBADMSGErr"
net_name ecancel = "kECANCELErr"
net_name enostr = "kENOSTRErr"
net_name enodata = "kENODATAErr"
net_name einprogress = "kEINPROGRESSErr"
net_name esrch = "kESRCHErr"
net_name enomsg = "kENOMSGErr"

abbrev pub net_errors : List NetErr
net_errors =
    eaddrinuse ∷ eaddrnotavail ∷ enetdown ∷ enetunreach ∷ enetreset ∷ econnaborted ∷ econnreset
    ∷ enobufs ∷ eisconn ∷ enotconn ∷ eshutdown ∷ etoomanyrefs ∷ etimedout ∷ econnrefused ∷ ehostdown
    ∷ ehostunreach ∷ eproto ∷ etime ∷ enosr ∷ ebadmsg ∷ ecancel ∷ enostr ∷ enodata ∷ einprogress
    ∷ esrch ∷ enomsg ∷ []
