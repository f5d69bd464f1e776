-- ===== src/Tests/Sensors.antt =====
-- The client of cmd/client at a concrete notification.
use comfoconnectbridge.Prelude.{◌≡◌, refl, arith, some, List, [], ◌∷◌, ◌++◌, take, drop}
use comfoconnectbridge.Go.Errors.{value}
use comfoconnectbridge.Proto.Enums.{OperationType}
use comfoconnectbridge.Proto.Messages.{CnRpdoNotification}
use comfoconnectbridge.Proto.Payload
use comfoconnectbridge.Comfoconnect.Message.{Message}
use comfoconnectbridge.Gauge.{Metric}
use comfoconnectbridge.Client.{Sensor, generate_metrics}
use comfoconnectbridge.Client.Command.{sensor, command_sensors}
use comfoconnectbridge.Client.Command.Sensors.{generate_metrics-command_sensors}
use comfoconnectbridge.Tests.Wire.{operation, app_uuid, gateway_uuid}

abbrev countdown : CnRpdoNotification
countdown = record { pdid = some 81; raw_data = some (0 ∷ 0 ∷ 1 ∷ 4 ∷ []) }

abbrev rpdo_message : Message
rpdo_message = record {
  src = gateway_uuid;
  dst = app_uuid;
  operation = operation OperationType.cn_rpdo_notification_type 0;
  raw_message = [];
  operation_type = some (Payload.cn_rpdo_notification countdown);
}

command_sensors-countdown :
    ◌≡◌ {A = List Sensor} command_sensors
      (take 16 command_sensors ++ (sensor 81 3 ∷ drop 17 command_sensors))
unfolding command_sensors
command_sensors-countdown = refl

generate_metrics-command_sensors_example :
    (x : Metric) × (generate_metrics rpdo_message rpdo_message.operation.type ≡ value (some x))
    × (x.id ≡ 81)
generate_metrics-command_sensors_example =
    generate_metrics-command_sensors (take 16 command_sensors) (drop 17 command_sensors)
      (sensor 81 3) rpdo_message countdown command_sensors-countdown refl refl refl (omega arith)
