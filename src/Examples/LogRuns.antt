-- ===== src/Examples/LogRuns.antt =====
-- A line of the bootloader, read back.
use espbewi.Common.{◌≡◌, some, arith}
use espbewi.Bootloader.{otadata_write}
use espbewi.Bootloader.Log.{report}
use espbewi.Bootloader.Readable.{read_report, read_report-report}

read_report-report_example :
    read_report (report (otadata_write 2 0xDEADBEEF)) ≡ some (otadata_write 2 0xDEADBEEF)
read_report-report_example =
    read_report-report (otadata_write 2 0xDEADBEEF) (omega arith, omega arith)
