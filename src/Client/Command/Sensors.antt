-- ===== src/Client/Command/Sensors.antt =====
-- The converters of rpdo.go on the sensors of cmd/client/client.go.
use comfoconnectbridge.Prelude.{
  ℕ, ◌≤◌, ◌≡◌, refl, ◌∙◌, arith, Bool, true, false, ◌&&◌, leb, ◌==◌, if◌then◌else◌, Option, none,
  some, List, [], ◌∷◌, ◌++◌, length, All, All-append_parts,
}
use mathlib.Core.Path.{subst}
use comfoconnectbridge.Prelude.Int.{ℤ}
use comfoconnectbridge.Go.Errors.{Go, value, panic, and_then}
use comfoconnectbridge.Proto.Enums.{OperationType, type_text, is_name}
use comfoconnectbridge.Proto.Messages.{CnRpdoNotification}
use comfoconnectbridge.Proto.Payload
use comfoconnectbridge.Comfoconnect.Message.{Message}
use comfoconnectbridge.Comfoconnect.Rpdo.{
  Converter, to_float64, ppid_cases, find_ppid, new_ppid, decode_ppid, decode_notification,
  decode_typed, decode_pdo, raw_bytes,
}
use comfoconnectbridge.Go.Binary.{Bytes}
use comfoconnectbridge.Comfoconnect.Rpdo.Values.{new_ppid_lem, needed, is_panic, to_float64_panics}
use comfoconnectbridge.Gauge.{Metric, metric_of}
use comfoconnectbridge.Client.{Sensor, metrics_typed, generate_metrics}
use comfoconnectbridge.Client.Command.{command_sensors}

-- The fewest bytes that a notification of a sensor of the type is taken to have: the type 3 names a
-- number of four bytes, and every other type one of a byte or more.
abbrev pub fewest : ℕ → ℕ
fewest n = if n == 3 then 4 else 1

abbrev fits : Sensor → Bool
fits s = leb (needed (new_ppid s.ppid none).kind) (fewest s.type)

abbrev all_fit : List Sensor → Bool
all_fit [] = true
all_fit (s ∷ ss) = fits s && all_fit ss

all_fit-All : (ss : List Sensor) → all_fit ss ≡ true → All (λ s. fits s ≡ true) ss
all_fit-All [] h = tt
all_fit-All (s ∷ ss) h = ground (arith, all_fit-All ss)

command_sensors-all_fit : all_fit command_sensors ≡ true
unfolding command_sensors new_ppid find_ppid ppid_cases
command_sensors-all_fit = refl

-- What the client measures of a sensor.
measured_cases :
    (g : Go ℤ) (id : ℕ) (f : ℤ → Metric)
    → is_panic g ≡ false
    → ((x : ℤ) → (f x).id ≡ id)
    → (x : Metric) × (and_then g (λ y. value (some (f y))) ≡ value (some x)) × (x.id ≡ id)
measured_cases (value y) id f h e = (f y, refl, e y)
measured_cases panic id f h e = cc

generate_metrics-metric_of :
    (m : Message) (n : CnRpdoNotification) (ppid : ℕ)
    → m.operation.type ≡ some OperationType.cn_rpdo_notification_type
    → m.operation_type ≡ some (Payload.cn_rpdo_notification n)
    → n.pdid ≡ some ppid
    → generate_metrics m m.operation.type ≡ metric_of (some (new_ppid ppid n.raw_data))
unfolding generate_metrics metrics_typed decode_pdo decode_typed decode_notification decode_ppid
    is_name type_text
generate_metrics-metric_of m n ppid ht hp hn = rw (ht, hp, hn) refl

new_ppid-kind :
    (ppid : ℕ) (raw : Option Bytes) → (new_ppid ppid raw).kind ≡ (new_ppid ppid none).kind
unfolding new_ppid
new_ppid-kind ppid raw = refl

to_float64_enough :
    (r : Converter) (k : ℕ)
    → leb (needed r.kind) k ≡ true
    → k ≤ length (raw_bytes r.raw_value)
    → is_panic (to_float64 r) ≡ false
to_float64_enough r k fit enough = to_float64_panics r ∙ ground arith

sensor_fits :
    (before after : List Sensor) (s : Sensor)
    → command_sensors ≡ before ++ (s ∷ after)
    → fits s ≡ true
sensor_fits before after s e =
    (All-append_parts (λ s. fits s ≡ true) before (s ∷ after)
      (subst (All (λ s. fits s ≡ true)) e
        (all_fit-All command_sensors command_sensors-all_fit))).1.0

-- The client of cmd/client sets a gauge under the id of the sensor, and does not panic, for every
-- notification of a sensor that it subscribes to, if a sensor of type 3 has at least four bytes of data
-- and any other at least one.
pub generate_metrics-command_sensors :
    (before after : List Sensor) (s : Sensor) (m : Message) (n : CnRpdoNotification)
    → command_sensors ≡ before ++ (s ∷ after)
    → m.operation.type ≡ some OperationType.cn_rpdo_notification_type
    → m.operation_type ≡ some (Payload.cn_rpdo_notification n)
    → n.pdid ≡ some s.ppid
    → fewest s.type ≤ length (raw_bytes n.raw_data)
    → (x : Metric) × (generate_metrics m m.operation.type ≡ value (some x)) × (x.id ≡ s.ppid)
unfolding metric_of
generate_metrics-command_sensors before after s m n e ht hp hn enough =
    let fit = sensor_fits before after s e in
    let r : Converter = new_ppid s.ppid n.raw_data in
    let (same_id, same_raw, _) = new_ppid_lem s.ppid n.raw_data in
    let small : is_panic (to_float64 r) ≡ false =
      to_float64_enough r (fewest s.type) (rw (new_ppid-kind s.ppid n.raw_data) fit)
        (rw same_raw enough) in
    rw (generate_metrics-metric_of m n s.ppid ht hp hn)
      (measured_cases (to_float64 r) s.ppid _ small (λ x. same_id))
