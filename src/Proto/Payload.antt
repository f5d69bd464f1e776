-- ===== src/Proto/Payload.antt =====
-- The Go interface `OperationType` of pkg/comfoconnect/comfoconnect.go: a pointer to one of the message
-- structs of proto/zehnder.pb.go, and the name that `reflect` gives the struct.
use comfoconnectbridge.Prelude.{String}
use comfoconnectbridge.Proto.Messages.{
  GatewayNotification, FactoryReset, SetDeviceSettingsRequest, SetAddressRequest,
  RegisterAppRequest, StartSessionRequest, StartSessionConfirm, ListRegisteredAppsConfirm,
  DeregisterAppRequest, ChangePinRequest, GetRemoteAccessIdConfirm, SetRemoteAccessIdRequest,
  GetSupportIdConfirm, SetSupportIdRequest, GetWebIdConfirm, SetWebIdRequest, SetPushIdRequest,
  UpgradeRequest, DebugRequest, DebugConfirm, VersionConfirm, CnTimeRequest, CnTimeConfirm,
  CnNodeNotification, CnRmiRequest, CnRmiResponse, CnRmiAsyncRequest, CnRmiAsyncConfirm,
  CnRmiAsyncResponse, CnRpdoRequest, CnRpdoNotification, CnAlarmNotification,
  CnFupReadRegisterRequest, CnFupReadRegisterConfirm, CnFupProgramBeginRequest, CnFupProgramRequest,
  CnFupReadRequest, CnFupReadConfirm, CnFupResetRequest,
}

pub data Payload : Type 0 where
  gateway_notification : GatewayNotification → Payload
  keep_alive : Payload
  factory_reset : FactoryReset → Payload
  set_device_settings_request : SetDeviceSettingsRequest → Payload
  set_device_settings_confirm : Payload
  set_address_request : SetAddressRequest → Payload
  set_address_confirm : Payload
  register_app_request : RegisterAppRequest → Payload
  register_app_confirm : Payload
  start_session_request : StartSessionRequest → Payload
  start_session_confirm : StartSessionConfirm → Payload
  close_session_request : Payload
  close_session_confirm : Payload
  list_registered_apps_request : Payload
  list_registered_apps_confirm : ListRegisteredAppsConfirm → Payload
  deregister_app_request : DeregisterAppRequest → Payload
  deregister_app_confirm : Payload
  change_pin_request : ChangePinRequest → Payload
  change_pin_confirm : Payload
  get_remote_access_id_request : Payload
  get_remote_access_id_confirm : GetRemoteAccessIdConfirm → Payload
  set_remote_access_id_request : SetRemoteAccessIdRequest → Payload
  set_remote_access_id_confirm : Payload
  get_support_id_request : Payload
  get_support_id_confirm : GetSupportIdConfirm → Payload
  set_support_id_request : SetSupportIdRequest → Payload
  set_support_id_confirm : Payload
  get_web_id_request : Payload
  get_web_id_confirm : GetWebIdConfirm → Payload
  set_web_id_request : SetWebIdRequest → Payload
  set_web_id_confirm : Payload
  set_push_id_request : SetPushIdRequest → Payload
  set_push_id_confirm : Payload
  upgrade_request : UpgradeRequest → Payload
  upgrade_confirm : Payload
  debug_request : DebugRequest → Payload
  debug_confirm : DebugConfirm → Payload
  version_request : Payload
  version_confirm : VersionConfirm → Payload
  cn_time_request : CnTimeRequest → Payload
  cn_time_confirm : CnTimeConfirm → Payload
  cn_node_request : Payload
  cn_node_notification : CnNodeNotification → Payload
  cn_rmi_request : CnRmiRequest → Payload
  cn_rmi_response : CnRmiResponse → Payload
  cn_rmi_async_request : CnRmiAsyncRequest → Payload
  cn_rmi_async_confirm : CnRmiAsyncConfirm → Payload
  cn_rmi_async_response : CnRmiAsyncResponse → Payload
  cn_rpdo_request : CnRpdoRequest → Payload
  cn_rpdo_confirm : Payload
  cn_rpdo_notification : CnRpdoNotification → Payload
  cn_alarm_notification : CnAlarmNotification → Payload
  cn_fup_read_register_request : CnFupReadRegisterRequest → Payload
  cn_fup_read_register_confirm : CnFupReadRegisterConfirm → Payload
  cn_fup_program_begin_request : CnFupProgramBeginRequest → Payload
  cn_fup_program_begin_confirm : Payload
  cn_fup_program_request : CnFupProgramRequest → Payload
  cn_fup_program_confirm : Payload
  cn_fup_program_end_request : Payload
  cn_fup_program_end_confirm : Payload
  cn_fup_read_request : CnFupReadRequest → Payload
  cn_fup_read_confirm : CnFupReadConfirm → Payload
  cn_fup_reset_request : CnFupResetRequest → Payload
  cn_fup_reset_confirm : Payload

-- `reflect.TypeOf(operationType).Elem().Name()`.
unfoldable pub struct_name : Payload → String
struct_name (gateway_notification _) = "GatewayNotification"
struct_name keep_alive = "KeepAlive"
struct_name (factory_reset _) = "FactoryReset"
struct_name (set_device_settings_request _) = "SetDeviceSettingsRequest"
struct_name set_device_settings_confirm = "SetDeviceSettingsConfirm"
struct_name (set_address_request _) = "SetAddressRequest"
struct_name set_address_confirm = "SetAddressConfirm"
struct_name (register_app_request _) = "RegisterAppRequest"
struct_name register_app_confirm = "RegisterAppConfirm"
struct_name (start_session_request _) = "StartSessionRequest"
struct_name (start_session_confirm _) = "StartSessionConfirm"
struct_name close_session_request = "CloseSessionRequest"
struct_name close_session_confirm = "CloseSessionConfirm"
struct_name list_registered_apps_request = "ListRegisteredAppsRequest"
struct_name (list_registered_apps_confirm _) = "ListRegisteredAppsConfirm"
struct_name (deregister_app_request _) = "DeregisterAppRequest"
struct_name deregister_app_confirm = "DeregisterAppConfirm"
struct_name (change_pin_request _) = "ChangePinRequest"
struct_name change_pin_confirm = "ChangePinConfirm"
struct_name get_remote_access_id_request = "GetRemoteAccessIdRequest"
struct_name (get_remote_access_id_confirm _) = "GetRemoteAccessIdConfirm"
struct_name (set_remote_access_id_request _) = "SetRemoteAccessIdRequest"
struct_name set_remote_access_id_confirm = "SetRemoteAccessIdConfirm"
struct_name get_support_id_request = "GetSupportIdRequest"
struct_name (get_support_id_confirm _) = "GetSupportIdConfirm"
struct_name (set_support_id_request _) = "SetSupportIdRequest"
struct_name set_support_id_confirm = "SetSupportIdConfirm"
struct_name get_web_id_request = "GetWebIdRequest"
struct_name (get_web_id_confirm _) = "GetWebIdConfirm"
struct_name (set_web_id_request _) = "SetWebIdRequest"
struct_name set_web_id_confirm = "SetWebIdConfirm"
struct_name (set_push_id_request _) = "SetPushIdRequest"
struct_name set_push_id_confirm = "SetPushIdConfirm"
struct_name (upgrade_request _) = "UpgradeRequest"
struct_name upgrade_confirm = "UpgradeConfirm"
struct_name (debug_request _) = "DebugRequest"
struct_name (debug_confirm _) = "DebugConfirm"
struct_name version_request = "VersionRequest"
struct_name (version_confirm _) = "VersionConfirm"
struct_name (cn_time_request _) = "CnTimeRequest"
struct_name (cn_time_confirm _) = "CnTimeConfirm"
struct_name cn_node_request = "CnNodeRequest"
struct_name (cn_node_notification _) = "CnNodeNotification"
struct_name (cn_rmi_request _) = "CnRmiRequest"
struct_name (cn_rmi_response _) = "CnRmiResponse"
struct_name (cn_rmi_async_request _) = "CnRmiAsyncRequest"
struct_name (cn_rmi_async_confirm _) = "CnRmiAsyncConfirm"
struct_name (cn_rmi_async_response _) = "CnRmiAsyncResponse"
struct_name (cn_rpdo_request _) = "CnRpdoRequest"
struct_name cn_rpdo_confirm = "CnRpdoConfirm"
struct_name (cn_rpdo_notification _) = "CnRpdoNotification"
struct_name (cn_alarm_notification _) = "CnAlarmNotification"
struct_name (cn_fup_read_register_request _) = "CnFupReadRegisterRequest"
struct_name (cn_fup_read_register_confirm _) = "CnFupReadRegisterConfirm"
struct_name (cn_fup_program_begin_request _) = "CnFupProgramBeginRequest"
struct_name cn_fup_program_begin_confirm = "CnFupProgramBeginConfirm"
struct_name (cn_fup_program_request _) = "CnFupProgramRequest"
struct_name cn_fup_program_confirm = "CnFupProgramConfirm"
struct_name cn_fup_program_end_request = "CnFupProgramEndRequest"
struct_name cn_fup_program_end_confirm = "CnFupProgramEndConfirm"
struct_name (cn_fup_read_request _) = "CnFupReadRequest"
struct_name (cn_fup_read_confirm _) = "CnFupReadConfirm"
struct_name (cn_fup_reset_request _) = "CnFupResetRequest"
struct_name cn_fup_reset_confirm = "CnFupResetConfirm"
