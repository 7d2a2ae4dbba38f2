-- ===== src/Lib.antt =====
-- Verification of the espbewi platform workspace: the code that starts an ESP device, and that keeps
-- its configuration and its firmware in flash.
--
-- The bootloader reads the partition table and the boot entries through the ROM, executes the
-- updates that the boot core plans, and loads an image. The running system writes a new image into
-- the other slot through the OTA storage, updates the boot entries in the otadata partition, and
-- keeps configuration records in an NVS partition. All of them share one flash.
--
-- Parts and files:
--   Common/           bytes, machine words, lists, results, and the state-and-error monad Exec
--   Flash             hardware/flash: the NOR driver as a record; Flash/Laws, its laws; Flash/Esp,
--                     EspFlash
--   Partitions        hardware/partitions: find, erase_range
--   Nvs               hardware/nvs: NvsPartition and its opening; Nvs/Laws, laws of the store;
--                     Nvs/View, NvsFlash
--   ConfigSpace/      adapters/config-space: Record (encode_record, decode_record), Units
--                     (valid_space_name, entries_for_blob, reservation_units), Backend
--                     (NvsConfigBackend: new, self_check, replace, load, commit, clear)
--   Ota               adapters/ota/src/lib.rs: AppSlot, find_app_partition, erase_partition_range
--   Ota/Storage       adapters/ota/src/lib.rs: EspArtifactStorage: flush_block, write, finish
--   Ota/Otadata       adapters/ota/src/otadata.rs: reading and updating the boot entries
--   Ota/SharedFlash   adapters/ota/src/shared_flash.rs: hash_preloaded, ArtifactWriter (append, finish);
--                     Locked, the wrappers that lock the flash
--   Ota/Interleaved   an upload between the steps of the other users of the flash
--   Handover          an image from the upload to the start of the bootloader;
--                     Handover/Restart: a restart in the middle of an upload
--   BootEntries       the crate fibewi::boot as a record: decode, encode, the commands of an update
--   Boot              hardware/boot: flash_read, flash_program, the flash size, the watchdogs; Boot/Cache,
--                     the cache and the MMU; Boot/Esp32s3, the functions of the second chip
--   Platform          hardware/platform: the memory maps
--   Bootloader        bootloader/esp: the partition table; Bootloader/Stages: execute, load, boot;
--                     Bootloader/Committed: execute cut off behind a step;
--                     Bootloader/Listing: the partition table as rows;
--                     Bootloader/Log: the lines that report a failure;
--                     Bootloader/Hardware: the ROM's loader, main
--   Tls               services/tls: epoch_to_tm, the certificate calendar; Tls/Pem
--                     (validate_cert_key_pair, server_config_from_pem, validate_ca_pem), Tls/Identity
--                     (generate_self_signed_identity), Tls/Client (connect_client), Tls/Socket (the
--                     picoserve adapter), Tls/Entropy (random bytes and the clock),
--                     Tls/Init (init)
--   Wifi              services/wifi: WifiManager (radio, scan, connect, ip, is_online)
--   Watchdog          hardware/watchdog: arm_ms, feed, disable
--   Examples/         concrete devices, tests, and the theorems at concrete inputs
--
-- State is passed explicitly: an operation maps a state to its answer and the next state, and the
-- state comes back beside an error too. The flash mutex is held for each operation, so an operation
-- is one step. Third-party code (the flash driver, the NVS store, the table parser, fibewi::boot,
-- plan_boot and the image validator, the ROM, mbedTLS, the radio and the network) is a record of
-- operations; what is relied on of it is a record of laws, which a concrete device in Examples has.
-- The calls of mbedTLS that make and free contexts are a history: a library answers a call by any
-- function of the calls before it.
--
-- Numbers are naturals; additions of u32 and u64 wrap (add_u32, add_u64), checked ones answer an
-- Option. A loop runs on fuel: as many passes as there are bytes left (flash_read, flash_program,
-- write, the copy of a segment), which is enough because each pass takes at least one byte.
--
-- Not modelled: log lines (but for those that report a failed boot), the uptime timer of services/tls,
-- the static cell of the flash owner, the Wi-Fi task net_task, and the panic handler.
pub mod Common
pub mod Flash
pub mod Partitions
pub mod Ota
pub mod Nvs
pub mod ConfigSpace
pub mod Boot
pub mod BootEntries
pub mod Platform
pub mod Bootloader
pub mod Tls
pub mod Wifi
pub mod Watchdog
pub mod Handover
mod Examples
