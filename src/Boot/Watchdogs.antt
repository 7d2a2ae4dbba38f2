-- ===== src/Boot/Watchdogs.antt =====
-- The watchdogs of the flash boot, over the registers of the chip: a configuration register changes
-- only while its write protection holds the key.
use espbewi.Common.{
  ℕ, ◌+◌, ◌/◌, ◌%◌, ◌^◌, ◌<◌, ◌≡◌, ◌≢◌, sym, ap, subst, ◌∙◌, Option, none, some, arith,
}
use espbewi.Boot.{Rom, without_bit, clear_bit, clear_flashboot_watchdogs}

-- The registers as the bus shows them, with the write protection of each, if it has one.
pub record RegisterLaws {S : Type 0} (rom : Rom S) : Type 0 where
  pub registers : S → ℕ → ℕ
  pub guard : ℕ → Option ℕ
  pub reads : (at : ℕ) (s : S) → (rom.read_volatile at s).0 ≡ registers s at
  pub read_keeps : (at : ℕ) (s : S) → registers (rom.read_volatile at s).1 ≡ registers s
  pub write_free :
      (at value : ℕ) (s : S)
      → guard at ≡ none
      → registers (rom.write_volatile at value s) at ≡ value
  pub write_guarded :
      (at value protect : ℕ) (s : S)
      → guard at ≡ some protect
      → registers s protect ≡ 0x50D83AA1
      → registers (rom.write_volatile at value s) at ≡ value
  pub write_frame :
      (at value : ℕ) (s : S) (i : ℕ)
      → i ≢ at
      → registers (rom.write_volatile at value s) i ≡ registers s i

-- Bit `bit` is 0, and the bits below and above it are as before.
pub record IsCleared (bit before after : ℕ) : Type 0 where
  pub cleared : after / 2 ^ bit % 2 ≡ 0
  pub below : after % 2 ^ bit ≡ before % 2 ^ bit
  pub above : after / 2 ^ (bit + 1) ≡ before / 2 ^ (bit + 1)

without_bit_14 : (x : ℕ) → IsCleared 14 x (without_bit x 14)
without_bit_14 x = record { cleared = omega arith; below = omega arith; above = omega arith }

without_bit_12 : (x : ℕ) → IsCleared 12 x (without_bit x 12)
without_bit_12 x = record { cleared = omega arith; below = omega arith; above = omega arith }

module _ {S : Type 0} (rom : Rom S) (laws : RegisterLaws rom) where
  open laws use {registers, guard}

  -- What one watchdog's two registers are, beside the others.
  pub record Opens (config protect bit : ℕ) (s : S) (out : ℕ × S) : Type 0 where
    pub answer : out.0 ≡ registers s config
    pub stored : registers out.1 config ≡ without_bit (registers s config) bit
    pub closed : registers out.1 protect ≡ 0
    pub frame : (i : ℕ) → i ≢ config → i ≢ protect → registers out.1 i ≡ registers s i

  clear_bit-Opens :
      (base config protect bit : ℕ) (s : S)
      → base + config ≢ base + protect
      → guard (base + config) ≡ some (base + protect)
      → guard (base + protect) ≡ none
      → Opens (base + config) (base + protect) bit s (clear_bit rom base config protect bit s)
  unfolding clear_bit
  clear_bit-Opens base config protect bit s apart guarded free =
      let cfg = base + config in
      let lock = base + protect in
      let s1 = (rom.read_volatile cfg s).1 in
      let value = without_bit (rom.read_volatile cfg s).0 bit in
      let s2 = rom.write_volatile lock 0x50D83AA1 s1 in
      let s3 = rom.write_volatile cfg value s2 in
      let opened : registers s2 lock ≡ 0x50D83AA1 = laws.write_free lock 0x50D83AA1 s1 free in
      record {
        answer = laws.reads cfg s;
        stored =
            laws.write_frame lock 0 s3 cfg apart
            ∙ laws.write_guarded cfg value lock s2 guarded opened
            ∙ ap (λ x. without_bit x bit) (laws.reads cfg s);
        closed = laws.write_free lock 0 s3 free;
        frame = λ i off_cfg off_lock.
            laws.write_frame lock 0 s3 i off_lock
            ∙ laws.write_frame cfg value s2 i off_cfg
            ∙ laws.write_frame lock 0x50D83AA1 s1 i off_lock
            ∙ ap (λ r. r i) (laws.read_keeps cfg s);
      }

-- The registers of both watchdogs, at the offsets of the chip for the second one.
pub record WatchdogRegisters {S : Type 0} {rom : Rom S} (laws : RegisterLaws rom)
    (rtc_config rtc_protect : ℕ) : Type 0 where
  pub tg0_guarded : laws.guard 0x6001F048 ≡ some 0x6001F064
  pub tg0_free : laws.guard 0x6001F064 ≡ none
  pub rtc_guarded : laws.guard (0x60008000 + rtc_config) ≡ some (0x60008000 + rtc_protect)
  pub rtc_free : laws.guard (0x60008000 + rtc_protect) ≡ none
  pub apart : rtc_config ≢ rtc_protect
  pub inside : (rtc_config < 0x1000) × (rtc_protect < 0x1000)

module _ {S : Type 0} (rom : Rom S) (laws : RegisterLaws rom) (rtc_config rtc_protect : ℕ)
    (chip : WatchdogRegisters laws rtc_config rtc_protect) where
  open laws use {registers}

  abbrev pub tg0 : ℕ
  tg0 = 0x6001F048

  abbrev pub rtc : ℕ
  rtc = 0x60008000 + rtc_config

  -- Both modes are off and both watchdogs protected again.
  pub record AreOff (s : S) (out : (ℕ × ℕ) × S) : Type 0 where
    pub answers : out.0 ≡ (registers s tg0, registers s rtc)
    pub tg0_off : IsCleared 14 (registers s tg0) (registers out.1 tg0)
    pub rtc_off : IsCleared 12 (registers s rtc) (registers out.1 rtc)
    pub tg0_closed : registers out.1 0x6001F064 ≡ 0
    pub rtc_closed : registers out.1 (0x60008000 + rtc_protect) ≡ 0
    pub others :
        (i : ℕ)
        → i ≢ tg0
        → i ≢ 0x6001F064
        → i ≢ rtc
        → i ≢ 0x60008000 + rtc_protect
        → registers out.1 i ≡ registers s i

  -- On a chip whose watchdog registers are at these offsets and change only while their write
  -- protection holds the key, `clear_flashboot_watchdogs` answers what both configuration registers
  -- held, clears bit 14 of the first and bit 12 of the second and no other bit, closes both write
  -- protections, and changes no other register.
  pub clear_flashboot_watchdogs-AreOff :
      (s : S) → AreOff s (clear_flashboot_watchdogs rom rtc_config rtc_protect s)
  unfolding clear_flashboot_watchdogs
  clear_flashboot_watchdogs-AreOff s =
      let (low_config, low_protect) = chip.inside in
      let apart = chip.apart in
      let lock = 0x60008000 + rtc_protect in
      let first =
        clear_bit-Opens rom laws 0x6001F000 0x48 0x64 14 s (omega arith) chip.tg0_guarded
          chip.tg0_free in
      let s1 = (clear_bit rom 0x6001F000 0x48 0x64 14 s).1 in
      let second =
        clear_bit-Opens rom laws 0x60008000 rtc_config rtc_protect 12 s1
          (λ e. apart (omega (arith, e))) chip.rtc_guarded chip.rtc_free in
      let s2 = (clear_bit rom 0x60008000 rtc_config rtc_protect 12 s1).1 in
      let rtc_before : registers s1 rtc ≡ registers s rtc =
        first.frame rtc (omega arith) (omega arith) in
      record {
        answers = λ i. (first.answer i, (second.answer ∙ rtc_before) i);
        tg0_off =
            subst (IsCleared 14 (registers s tg0))
              (sym (second.frame tg0 (omega arith) (omega arith) ∙ first.stored))
              (without_bit_14 (registers s tg0));
        rtc_off =
            subst (IsCleared 12 (registers s rtc))
              (sym (second.stored ∙ ap (λ x. without_bit x 12) rtc_before))
              (without_bit_12 (registers s rtc));
        tg0_closed = second.frame 0x6001F064 (omega arith) (omega arith) ∙ first.closed;
        rtc_closed = second.closed;
        others = λ i a b c d. second.frame i c d ∙ first.frame i a b;
      }
