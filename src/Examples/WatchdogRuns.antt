-- ===== src/Examples/WatchdogRuns.antt =====
-- The watchdogs of an esp32c3, as registers of which two are protected by two others.
use espbewi.Common.{ℕ, ◌==◌, ◌≡◌, refl, Option, none, some, arith, ==_self, if◌then◌else◌}
use espbewi.Boot.{Rom}
use espbewi.Boot.Cache.{esp32c3_watchdogs}
use espbewi.Boot.Watchdogs.{
  RegisterLaws, WatchdogRegisters, AreOff, clear_flashboot_watchdogs-AreOff,
}

abbrev Registers : Type 0
Registers = ℕ → ℕ

abbrev guard_of : ℕ → Option ℕ
guard_of at =
    if at == 0x6001F048 then some 0x6001F064 else if at == 0x60008090 then some 0x600080A8 else none

abbrev store : ℕ → ℕ → Registers → Registers
store at value r i = if i == at then value else r i

abbrev write_at : Option ℕ → ℕ → ℕ → Registers → Registers
write_at none at value r = store at value r
write_at (some protect) at value r = if r protect == 0x50D83AA1 then store at value r else r

abbrev bus : Rom Registers
bus = record {
  spiflash_read = λ start len r. (none, r);
  spiflash_write = λ at bytes r. (none, r);
  spiflash_erase_sector = λ n r. (none, r);
  spiflash_unlock = λ r. (none, r);
  spiflash_attach = λ r. r;
  spiflash_config_param = λ size block sector page mask r. r;
  set_chip_size = λ size r. r;
  read_volatile = λ at r. (r at, r);
  write_volatile = λ at value r. write_at (guard_of at) at value r;
}

store_here : (at value : ℕ) (r : Registers) → store at value r at ≡ value
store_here at value r = rw (==_self at) refl

write_free :
    (g : Option ℕ) (at value : ℕ) (r : Registers) → g ≡ none → write_at g at value r at ≡ value
write_free none at value r e = store_here at value r
write_free (some p) at value r e = absurd (cc)

write_open :
    (g : Option ℕ) (at value protect : ℕ) (r : Registers)
    → g ≡ some protect
    → r protect ≡ 0x50D83AA1
    → write_at g at value r at ≡ value
write_open none at value protect r e key = absurd (cc)
write_open (some p) at value protect r e key =
    let same : p ≡ protect = ground arith in rw same (rw key (store_here at value r))

write_others :
    (g : Option ℕ) (at value : ℕ) (r : Registers) (i : ℕ)
    → (i ≡ at → ⊥)
    → write_at g at value r i ≡ r i
write_others none at value r i apart = ground arith
write_others (some p) at value r i apart = ground arith

abbrev bus_laws : RegisterLaws bus
bus_laws = record {
  registers = λ r. r;
  guard = guard_of;
  reads = λ at r. refl;
  read_keeps = λ at r. refl;
  write_free = λ at value r e. write_free (guard_of at) at value r e;
  write_guarded = λ at value protect r e key. write_open (guard_of at) at value protect r e key;
  write_frame = λ at value r i apart. write_others (guard_of at) at value r i apart;
}

abbrev c3_registers : WatchdogRegisters bus_laws 0x90 0xA8
c3_registers = record {
  tg0_guarded = refl;
  tg0_free = refl;
  rtc_guarded = refl;
  rtc_free = refl;
  apart = λ e. omega (arith, e);
  inside = (omega arith, omega arith);
}

abbrev running : Registers
running at = 0xFFFFFFFF

clear_flashboot_watchdogs-AreOff_example :
    AreOff bus bus_laws 0x90 0xA8 c3_registers running (esp32c3_watchdogs bus running)
clear_flashboot_watchdogs-AreOff_example =
    clear_flashboot_watchdogs-AreOff bus bus_laws 0x90 0xA8 c3_registers running
