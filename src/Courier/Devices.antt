-- ===== src/Courier/Devices.antt =====
-- The devices whose carriage was observed while they were not configured, and the store's probe
-- (internal/evidence/courier/probe.go).
use ori_gateway.Base.{
  ℕ, String, Bool, true, false, not, ◌&&◌, ◌||◌, Option, none, some, List, [], ◌∷◌, map, leb, ltb,
  if◌then◌else◌, length, ◌==◌, nat_eq, string_eq,
}
use ori_gateway.Base.Maps.{Map, insert, erase, has}
use ori_gateway.Base.Sort.{sort_by, str_ltb}
use ori_gateway.Faults.{note, store_unavailable, device_unconfigured}
use ori_gateway.Courier.Queue.Disk.{Write, write_failed, Removal, removal_failed, lost, kept}
use ori_gateway.Courier.Queue.State.{DurableQueue, note_store}

abbrev pub max_unconfigured_devices : ℕ
max_unconfigured_devices = 256

abbrev pub unconfigured_file_version : ℕ
unconfigured_file_version = 1

abbrev pub devices_fault_source : String
devices_fault_source = "devices"

-- The text of the durable record.
pub record UnconfiguredRecord : Type 0 where
  pub v : ℕ
  pub devices : List String
  pub overflow : Bool

-- The queue's set of devices with its overflow mark, and the file that persists them.
pub record Unconfigured : Type 0 where
  pub devices : Map String Bool
  pub overflow : Bool
  pub file : Option UnconfiguredRecord

abbrev pub no_devices : Unconfigured
no_devices = record { devices = []; overflow = false; file = none }

abbrev pub note_device_fault : Bool → DurableQueue → DurableQueue
note_device_fault failed q = record q {
  faults = note device_unconfigured devices_fault_source failed q.faults;
}

-- What the file operations of one write of the record answer.
pub record DevicesIo : Type 0 where
  pub write : Write
  pub removal : Removal

abbrev pub device_names : Map String Bool → List String
device_names devices = sort_by str_ltb (map (λ entry. entry.0) devices)

abbrev pub file_after :
    Write → UnconfiguredRecord → Option UnconfiguredRecord → Option UnconfiguredRecord
file_after lost r file = file
file_after _ r file = some r

abbrev pub file_without : Removal → Option UnconfiguredRecord → Option UnconfiguredRecord
file_without kept file = file
file_without _ file = none

-- `writeUnconfiguredLocked`, with whether it succeeded. An empty record's file is removed.
unfoldable pub write_unconfigured :
    DevicesIo → DurableQueue → Unconfigured → DurableQueue × Unconfigured × Bool
unfolding note_store sort_by
write_unconfigured io q u =
    if length u.devices == 0 && not u.overflow
    then (
      note_store (removal_failed io.removal) q,
      record u { file = file_without io.removal u.file },
      not (removal_failed io.removal),
    )
    else (
      note_store (write_failed io.write) q,
      record u {
        file =
            file_after io.write
              (record {
                v = unconfigured_file_version;
                devices = device_names u.devices;
                overflow = u.overflow;
              })
              u.file;
      },
      not (write_failed io.write),
    )

-- `NoteUnconfiguredDevice`; `domain` is `validRoutingDeviceID`.
unfoldable pub note_unconfigured_device :
    (String → Bool)
    → DevicesIo
    → String
    → DurableQueue
    → Unconfigured
    → DurableQueue × Unconfigured × Bool
unfolding note insert write_unconfigured
note_unconfigured_device domain io device q u =
    let q₁ : DurableQueue = note_device_fault true q in
    if has device u.devices
    then (q₁, u, true)
    else if leb max_unconfigured_devices (length u.devices) || not (domain device)
    then (if u.overflow
        then (q₁, u, true)
        else write_unconfigured io q₁ (record u { overflow = true }))
    else write_unconfigured io q₁ (record u { devices = insert device true u.devices })

-- The fault falls once the written record names no device and marks no overflow.
abbrev pub fall_if_none : DurableQueue × Unconfigured × Bool → DurableQueue × Unconfigured
fall_if_none (q, u, written) =
    if not written
    then (q, u)
    else if length u.devices == 0 && not u.overflow
    then (note_device_fault false q, u)
    else (q, u)

unfoldable pub note_admitted_device :
    DevicesIo → String → DurableQueue → Unconfigured → DurableQueue × Unconfigured
unfolding note erase write_unconfigured
note_admitted_device io device q u =
    if not (has device u.devices)
    then (q, u)
    else fall_if_none (write_unconfigured io q (record u { devices = erase device u.devices }))

-- The loop of `loadUnconfigured`: `none` is a device outside the routing domain.
unfoldable pub take_devices :
    (String → Bool) → List String → Map String Bool → Option (Map String Bool)
unfolding insert
take_devices domain [] devices = some devices
take_devices domain (device ∷ rest) devices =
    if not (domain device) then none else take_devices domain rest (insert device true devices)

-- `loadUnconfigured` on the decoded record: `none` refuses the queue.
unfoldable pub load_unconfigured :
    (String → Bool) → UnconfiguredRecord → DurableQueue → Option (DurableQueue × Unconfigured)
unfolding take_devices note
load_unconfigured domain r q =
    if not (r.v == unconfigured_file_version) || ltb max_unconfigured_devices (length r.devices)
    then none
    else elim (take_devices domain r.devices []) [
      | none ↦ none
      | some devices ↦ some (
        note_if (not (length devices == 0) || r.overflow) q,
        record { devices = devices; overflow = r.overflow; file = some r },
      )
    ]
  where
    note_if : Bool → DurableQueue → DurableQueue
    note_if raised q = if raised then note_device_fault true q else q

-- `Probe`: whether the directory was read, the fresh bytes drawn and the probe file replaced. Its
-- outcome alone clears the store's fault.
unfoldable pub probe : Bool → Bool → Write → DurableQueue → DurableQueue
unfolding note
probe readable random w q = record q {
  faults =
      note store_unavailable q.fault_source (not (readable && random) || write_failed w) q.faults;
}
