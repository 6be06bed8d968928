-- ===== src/Errors.antt =====
-- PowerNet/src/socket/internal.cpp: error codes of Open Transport and their report. The codes are
-- constants of Open Transport's headers, of which the switch needs that they differ: an `OsErr`
-- is a code by its name, or one for which the switch has no `case`.
pub mod Xti
pub mod Unix
pub mod Net
pub mod Port
pub mod Report
use Prim.Native.String.{String}
use power_boot.Prelude.{ℕ, ◌+◌, ◌≡◌, refl, Option, none, some, ◌++◌, map, take, List, []}
use power_boot.Prelude.Text.{Text, codes}
use power_boot.Errors.Xti.{XtiErr, xti_name}
use power_boot.Errors.Unix.{UnixErr, unix_name}
use power_boot.Errors.Net.{NetErr, net_name}
use power_boot.Errors.Port.{PortErr, port_name}

pub data OsErr : Type 0 where
  no_err : OsErr
  xti : XtiErr → OsErr
  unix : UnixErr → OsErr
  net : NetErr → OsErr
  port : PortErr → OsErr
  unlisted : ℕ → OsErr

-- The label that the switch prints for a code; `none` where it has no `case`.
unfoldable pub error_name : OsErr → Option String
unfolding xti_name unix_name net_name port_name
error_name no_err = none
error_name (xti e) = some (xti_name e)
error_name (unix e) = some (unix_name e)
error_name (net e) = some (net_name e)
error_name (port e) = some (port_name e)
error_name (unlisted n) = none

-- What `vsnprintf(buf, 255, …)` leaves in the buffer: the text up to its NUL.
unfoldable pub buffer_255 : Text → Text
buffer_255 s = take 254 s

-- The formatted text of a report, before the buffer; `line` is `%d` of `__LINE__`.
abbrev pub report_head : Text → Text → Text → Text
report_head func file line =
    codes "Error:\n\t- Function:"
    ++ func
    ++ codes "\n\t- Position:"
    ++ file
    ++ codes ":"
    ++ line
    ++ codes "\n\t- Error: "

unfoldable pub report : Text → Text → Text → String → Text
report func file line name = report_head func file line ++ codes name
