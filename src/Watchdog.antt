-- ===== src/Watchdog.antt =====
-- hardware/watchdog/src/lib.rs: the watchdog of the first timer group. The driver `esp_hal` is a
-- record of operations over its state `S`; a duration is its milliseconds.
use espbewi.Common.{ℕ}

pub data MwdtStage : Type 0 where
  stage_0 stage_1 stage_2 stage_3 : MwdtStage

pub record Wdt (S : Type 0) : Type 0 where
  pub set_timeout : MwdtStage → ℕ → S → S
  pub enable : S → S
  pub wdt_feed : S → S
  pub wdt_disable : S → S

module _ {S : Type 0} (wdt : Wdt S) where
  abbrev pub arm_ms : ℕ → S → S
  arm_ms timeout_ms s = wdt.enable (wdt.set_timeout stage_0 timeout_ms s)

  abbrev pub feed : S → S
  feed s = wdt.wdt_feed s

  abbrev pub disable : S → S
  disable s = wdt.wdt_disable s
