-- ===== src/Proto/Messages.antt =====
-- proto/zehnder.pb.go: the message structs, each field a pointer or a slice that may be nil. An int32
-- is given by its 32 bits. The fields XXX_ of the protobuf library are left out.
use comfoconnectbridge.Prelude.{ℕ, String, Bool, Option, List}
use comfoconnectbridge.Go.Binary.{Bytes}
use comfoconnectbridge.Proto.Enums.{
  OperationType, GatewayResult, UpgradeRequestCommand, DebugRequestCommand, NodeModeType,
}

pub record ListRegisteredAppsConfirmApp : Type 0 where
  pub uuid : Option Bytes
  pub devicename : Option String

pub record CnAlarmNotification : Type 0 where
  pub zone : Option ℕ
  pub product_id : Option ℕ
  pub product_variant : Option ℕ
  pub serial_number : Option String
  pub sw_program_version : Option ℕ
  pub errors : Option Bytes
  pub error_id : Option ℕ
  pub node_id : Option ℕ

pub record SearchGatewayResponse : Type 0 where
  pub ipaddress : Option String
  pub uuid : Option Bytes
  pub version : Option ℕ

pub record GatewayOperation : Type 0 where
  pub type : Option OperationType
  pub result : Option GatewayResult
  pub result_description : Option String
  pub reference : Option ℕ

pub record GatewayNotification : Type 0 where
  pub push_uui_ds : List Bytes
  pub alarm : Option CnAlarmNotification

pub record FactoryReset : Type 0 where
  pub reset_key : Option Bytes

pub record SetDeviceSettingsRequest : Type 0 where
  pub mac_address : Option Bytes
  pub serial_number : Option String

pub record SetAddressRequest : Type 0 where
  pub uuid : Option Bytes

pub record RegisterAppRequest : Type 0 where
  pub uuid : Option Bytes
  pub pin : Option ℕ
  pub devicename : Option String

pub record StartSessionRequest : Type 0 where
  pub takeover : Option Bool

pub record StartSessionConfirm : Type 0 where
  pub devicename : Option String
  pub resumed : Option Bool

pub record ListRegisteredAppsConfirm : Type 0 where
  pub apps : List ListRegisteredAppsConfirmApp

pub record DeregisterAppRequest : Type 0 where
  pub uuid : Option Bytes

pub record ChangePinRequest : Type 0 where
  pub oldpin : Option ℕ
  pub newpin : Option ℕ

pub record GetRemoteAccessIdConfirm : Type 0 where
  pub uuid : Option Bytes

pub record SetRemoteAccessIdRequest : Type 0 where
  pub uuid : Option Bytes

pub record GetSupportIdConfirm : Type 0 where
  pub uuid : Option Bytes
  pub remaining_time : Option ℕ

pub record SetSupportIdRequest : Type 0 where
  pub uuid : Option Bytes
  pub valid_time : Option ℕ

pub record GetWebIdConfirm : Type 0 where
  pub uuid : Option Bytes

pub record SetWebIdRequest : Type 0 where
  pub uuid : Option Bytes

pub record SetPushIdRequest : Type 0 where
  pub uuid : Option Bytes

pub record UpgradeRequest : Type 0 where
  pub command : Option UpgradeRequestCommand
  pub chunk : Option Bytes

pub record DebugRequest : Type 0 where
  pub command : Option DebugRequestCommand
  pub argument : Option ℕ

pub record DebugConfirm : Type 0 where
  pub result : Option ℕ

pub record VersionConfirm : Type 0 where
  pub gateway_version : Option ℕ
  pub serial_number : Option String
  pub comfo_net_version : Option ℕ

pub record CnTimeRequest : Type 0 where
  pub set_time : Option ℕ

pub record CnTimeConfirm : Type 0 where
  pub current_time : Option ℕ

pub record CnNodeNotification : Type 0 where
  pub node_id : Option ℕ
  pub product_id : Option ℕ
  pub zone_id : Option ℕ
  pub mode : Option NodeModeType

pub record CnRmiRequest : Type 0 where
  pub node_id : Option ℕ
  pub message : Option Bytes

pub record CnRmiResponse : Type 0 where
  pub result : Option ℕ
  pub message : Option Bytes

pub record CnRmiAsyncRequest : Type 0 where
  pub node_id : Option ℕ
  pub message : Option Bytes

pub record CnRmiAsyncConfirm : Type 0 where
  pub result : Option ℕ

pub record CnRmiAsyncResponse : Type 0 where
  pub result : Option ℕ
  pub message : Option Bytes

pub record CnRpdoRequest : Type 0 where
  pub pdid : Option ℕ
  pub zone : Option ℕ
  pub type : Option ℕ
  pub timeout : Option ℕ

pub record CnRpdoNotification : Type 0 where
  pub pdid : Option ℕ
  pub raw_data : Option Bytes

pub record CnFupReadRegisterRequest : Type 0 where
  pub node : Option ℕ
  pub register_id : Option ℕ
  pub index : Option ℕ

pub record CnFupReadRegisterConfirm : Type 0 where
  pub value : Option ℕ

pub record CnFupProgramBeginRequest : Type 0 where
  pub node : List ℕ
  pub block : Option ℕ

pub record CnFupProgramRequest : Type 0 where
  pub chunk : Option Bytes

pub record CnFupReadRequest : Type 0 where
  pub node : Option ℕ
  pub block : Option ℕ

pub record CnFupReadConfirm : Type 0 where
  pub chunk : Option Bytes
  pub last : Option Bool

pub record CnFupResetRequest : Type 0 where
  pub node : Option ℕ
