-- ===== src/Proxy/Metrics.antt =====
-- What `generateMetrics` of pkg/proxy/proxy.go does with process data.
use comfoconnectbridge.Prelude.{ℕ, ◌≡◌, refl, ap, ◌∙◌, some, length, ltb}
use comfoconnectbridge.Go.Errors.{and_then, Go, value, panic}
use comfoconnectbridge.Proto.Enums.{OperationType, type_text, is_name}
use comfoconnectbridge.Proto.Messages.{CnRpdoNotification}
use comfoconnectbridge.Proto.Payload
use comfoconnectbridge.Comfoconnect.Message.{Message}
use comfoconnectbridge.Comfoconnect.Rpdo.{
  Converter, to_float64, new_ppid, decode_ppid, decode_notification, decode_typed, decode_pdo,
  raw_bytes,
}
use comfoconnectbridge.Comfoconnect.Rpdo.Values.{needed, is_panic, to_float64_panics}
use comfoconnectbridge.Gauge.{metric_of}
use comfoconnectbridge.Proxy.{metrics_typed, generate_metrics, forward_to_gateway}

and_then-is_panic :
    {A B : Type 0} (g : Go A) (f : A → B) → is_panic (and_then g (λ x. value (f x))) ≡ is_panic g
and_then-is_panic (value a) f = refl
and_then-is_panic panic f = refl

metric_of-is_panic : (r : Converter) → is_panic (metric_of (some r)) ≡ is_panic (to_float64 r)
unfolding metric_of
metric_of-is_panic r =
    and_then-is_panic (to_float64 r)
      (λ x. some (record { id = r.id; description = r.description; reading = x }))

-- A notification with the id `ppid` is measured with the converter that NewPpid makes.
generate_metrics-metric_of :
    (m : Message) (n : CnRpdoNotification) (ppid : ℕ)
    → m.operation.type ≡ some OperationType.cn_rpdo_notification_type
    → m.operation_type ≡ some (Payload.cn_rpdo_notification n)
    → n.pdid ≡ some ppid
    → generate_metrics m ≡ metric_of (some (new_ppid ppid n.raw_data))
unfolding generate_metrics metrics_typed decode_pdo decode_typed decode_notification decode_ppid
    is_name type_text
generate_metrics-metric_of m n ppid ht hp hn = rw (ht, hp, hn) refl

-- Measuring a notification with a process data id panics exactly if its data is shorter than the
-- converter of that id needs, and forwarding it to the gateway then panics too.
pub generate_metrics_panics :
    (m : Message) (n : CnRpdoNotification) (ppid : ℕ)
    → m.operation.type ≡ some OperationType.cn_rpdo_notification_type
    → m.operation_type ≡ some (Payload.cn_rpdo_notification n)
    → n.pdid ≡ some ppid
    → (is_panic (generate_metrics m)
        ≡ ltb (length (raw_bytes n.raw_data)) (needed (new_ppid ppid n.raw_data).kind))
      × (is_panic (forward_to_gateway m)
          ≡ ltb (length (raw_bytes n.raw_data)) (needed (new_ppid ppid n.raw_data).kind))
unfolding forward_to_gateway
generate_metrics_panics m n ppid ht hp hn =
    let measured : is_panic (generate_metrics m)
        ≡ ltb (length (raw_bytes n.raw_data)) (needed (new_ppid ppid n.raw_data).kind) =
      ap is_panic (generate_metrics-metric_of m n ppid ht hp hn)
      ∙ metric_of-is_panic (new_ppid ppid n.raw_data)
      ∙ to_float64_panics (new_ppid ppid n.raw_data) in
    (measured, and_then-is_panic (generate_metrics m) (λ x. (x, m)) ∙ measured)
