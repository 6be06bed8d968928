-- ===== src/Examples/Errors.antt =====
-- The report of two errors.
use power_boot.Prelude.{◌≤◌, ◌≡◌, refl, length, arith}
use power_boot.Prelude.Text.{codes}
use power_boot.Errors.{error_name, report, buffer_255, xti}
use power_boot.Errors.Xti.{no_data}
use power_boot.Errors.Report.{report-injective}

short :
    length (report (codes "OTConnectStatus") (codes "connect.cpp") (codes "100") "kOTNoDataErr")
    ≤ 254
unfolding report
short = omega arith

-- The report of kOTNoDataErr by `connect_thread`, against itself.
report-injective_example : xti no_data ≡ xti no_data
unfolding error_name buffer_255
report-injective_example =
    report-injective (xti no_data) (xti no_data) "kOTNoDataErr" "kOTNoDataErr"
      (codes "OTConnectStatus") (codes "connect.cpp") (codes "100") refl refl short short refl
