-- ===== src/Errors/Port.antt =====
-- PowerNet/src/socket/internal.cpp, `__throw_os_err`: the errors of Open Transport ports and
-- configurations. A constructor is a `case` label without its `k`, `kOT` and `Err`.
use Prim.Native.String.{String}
use power_boot.Prelude.{List, [], ◌∷◌}

pub data PortErr : Type 0 where
  client_not_initted port_has_died port_was_ejected bad_configuration : PortErr
  configuration_changed user_requested port_lost_connection : PortErr

-- The name that the message ends in.
unfoldable pub port_name : PortErr → String
port_name client_not_initted = "kOTClientNotInittedErr"
port_name port_has_died = "kOTPortHasDiedErr"
port_name port_was_ejected = "kOTPortWasEjectedErr"
port_name bad_configuration = "kOTBadConfigurationErr"
port_name configuration_changed = "kOTConfigurationChangedErr"
port_name user_requested = "kOTUserRequestedErr"
port_name port_lost_connection = "kOTPortLostConnection"

abbrev pub port_errors : List PortErr
port_errors =
    client_not_initted ∷ port_has_died ∷ port_was_ejected ∷ bad_configuration
    ∷ configuration_changed ∷ user_requested ∷ port_lost_connection ∷ []
