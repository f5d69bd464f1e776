-- ===== src/Comfoconnect/Types.antt =====
-- pkg/comfoconnect/comfoconnect.go: `GetStructForType` and `getResponseTypeForOperationType`, the two
-- switches that tie an operation type to a message struct and a request to its response.
pub mod Tables
use comfoconnectbridge.Prelude.{String, Option, none, some, List, [], ◌∷◌}
use comfoconnectbridge.Proto.Enums
use comfoconnectbridge.Proto.Enums.{EnumText, named, switch, OperationType}
use comfoconnectbridge.Proto.Payload.{
  Payload, struct_name, gateway_notification, keep_alive, factory_reset,
  set_device_settings_request, set_device_settings_confirm, set_address_request,
  set_address_confirm, register_app_request, register_app_confirm, start_session_request,
  start_session_confirm, close_session_request, close_session_confirm, list_registered_apps_request,
  list_registered_apps_confirm, deregister_app_request, deregister_app_confirm, change_pin_request,
  change_pin_confirm, get_remote_access_id_request, get_remote_access_id_confirm,
  set_remote_access_id_request, set_remote_access_id_confirm, get_support_id_request,
  get_support_id_confirm, set_support_id_request, set_support_id_confirm, get_web_id_request,
  get_web_id_confirm, set_web_id_request, set_web_id_confirm, set_push_id_request,
  set_push_id_confirm, upgrade_request, upgrade_confirm, debug_request, debug_confirm,
  version_request, version_confirm, cn_time_request, cn_time_confirm, cn_node_request,
  cn_node_notification, cn_rmi_request, cn_rmi_response, cn_rmi_async_request, cn_rmi_async_confirm,
  cn_rmi_async_response, cn_rpdo_request, cn_rpdo_confirm, cn_rpdo_notification,
  cn_alarm_notification, cn_fup_read_register_request, cn_fup_read_register_confirm,
  cn_fup_program_begin_request, cn_fup_program_begin_confirm, cn_fup_program_request,
  cn_fup_program_confirm, cn_fup_program_end_request, cn_fup_program_end_confirm,
  cn_fup_read_request, cn_fup_read_confirm, cn_fup_reset_request, cn_fup_reset_confirm,
}

-- The cases of `GetStructForType`, each with a fresh struct.
unfoldable pub struct_cases : List (String × Payload)
struct_cases =
    ("SetAddressRequestType", (set_address_request (record { uuid = none })))
    ∷ (
      "RegisterAppRequestType",
      (register_app_request (record { uuid = none; pin = none; devicename = none })),
    )
    ∷ ("StartSessionRequestType", (start_session_request (record { takeover = none })))
    ∷ ("CloseSessionRequestType", close_session_request)
    ∷ ("ListRegisteredAppsRequestType", list_registered_apps_request)
    ∷ ("DeregisterAppRequestType", (deregister_app_request (record { uuid = none })))
    ∷ ("ChangePinRequestType", (change_pin_request (record { oldpin = none; newpin = none })))
    ∷ ("GetRemoteAccessIdRequestType", get_remote_access_id_request)
    ∷ ("SetRemoteAccessIdRequestType", (set_remote_access_id_request (record { uuid = none })))
    ∷ ("GetSupportIdRequestType", get_support_id_request)
    ∷ (
      "SetSupportIdRequestType",
      (set_support_id_request (record { uuid = none; valid_time = none })),
    )
    ∷ ("GetWebIdRequestType", get_web_id_request)
    ∷ ("SetWebIdRequestType", (set_web_id_request (record { uuid = none })))
    ∷ ("SetPushIdRequestType", (set_push_id_request (record { uuid = none })))
    ∷ ("DebugRequestType", (debug_request (record { command = none; argument = none })))
    ∷ ("UpgradeRequestType", (upgrade_request (record { command = none; chunk = none })))
    ∷ (
      "SetDeviceSettingsRequestType",
      (set_device_settings_request (record { mac_address = none; serial_number = none })),
    )
    ∷ ("VersionRequestType", version_request)
    ∷ ("SetAddressConfirmType", set_address_confirm)
    ∷ ("RegisterAppConfirmType", register_app_confirm)
    ∷ (
      "StartSessionConfirmType",
      (start_session_confirm (record { devicename = none; resumed = none })),
    )
    ∷ ("CloseSessionConfirmType", close_session_confirm)
    ∷ ("ListRegisteredAppsConfirmType", (list_registered_apps_confirm (record { apps = [] })))
    ∷ ("DeregisterAppConfirmType", deregister_app_confirm)
    ∷ ("ChangePinConfirmType", change_pin_confirm)
    ∷ ("GetRemoteAccessIdConfirmType", (get_remote_access_id_confirm (record { uuid = none })))
    ∷ ("SetRemoteAccessIdConfirmType", set_remote_access_id_confirm)
    ∷ (
      "GetSupportIdConfirmType",
      (get_support_id_confirm (record { uuid = none; remaining_time = none })),
    )
    ∷ ("SetSupportIdConfirmType", set_support_id_confirm)
    ∷ ("GetWebIdConfirmType", (get_web_id_confirm (record { uuid = none })))
    ∷ ("SetWebIdConfirmType", set_web_id_confirm)
    ∷ ("SetPushIdConfirmType", set_push_id_confirm)
    ∷ ("DebugConfirmType", (debug_confirm (record { result = none })))
    ∷ ("UpgradeConfirmType", upgrade_confirm)
    ∷ ("SetDeviceSettingsConfirmType", set_device_settings_confirm)
    ∷ (
      "VersionConfirmType",
      (version_confirm
          (record { gateway_version = none; serial_number = none; comfo_net_version = none })),
    )
    ∷ (
      "GatewayNotificationType",
      (gateway_notification (record { push_uui_ds = []; alarm = none })),
    )
    ∷ ("KeepAliveType", keep_alive)
    ∷ ("FactoryResetType", (factory_reset (record { reset_key = none })))
    ∷ ("CnTimeRequestType", (cn_time_request (record { set_time = none })))
    ∷ ("CnTimeConfirmType", (cn_time_confirm (record { current_time = none })))
    ∷ ("CnNodeRequestType", cn_node_request)
    ∷ (
      "CnNodeNotificationType",
      (cn_node_notification
          (record { node_id = none; product_id = none; zone_id = none; mode = none })),
    )
    ∷ ("CnRmiRequestType", (cn_rmi_request (record { node_id = none; message = none })))
    ∷ ("CnRmiResponseType", (cn_rmi_response (record { result = none; message = none })))
    ∷ ("CnRmiAsyncRequestType", (cn_rmi_async_request (record { node_id = none; message = none })))
    ∷ ("CnRmiAsyncConfirmType", (cn_rmi_async_confirm (record { result = none })))
    ∷ ("CnRmiAsyncResponseType", (cn_rmi_async_response (record { result = none; message = none })))
    ∷ (
      "CnRpdoRequestType",
      (cn_rpdo_request (record { pdid = none; zone = none; type = none; timeout = none })),
    )
    ∷ ("CnRpdoConfirmType", cn_rpdo_confirm)
    ∷ ("CnRpdoNotificationType", (cn_rpdo_notification (record { pdid = none; raw_data = none })))
    ∷ (
      "CnAlarmNotificationType",
      (cn_alarm_notification (record {
        zone = none;
        product_id = none;
        product_variant = none;
        serial_number = none;
        sw_program_version = none;
        errors = none;
        error_id = none;
        node_id = none;
      })),
    )
    ∷ (
      "CnFupReadRegisterRequestType",
      (cn_fup_read_register_request (record { node = none; register_id = none; index = none })),
    )
    ∷ ("CnFupReadRegisterConfirmType", (cn_fup_read_register_confirm (record { value = none })))
    ∷ (
      "CnFupProgramBeginRequestType",
      (cn_fup_program_begin_request (record { node = []; block = none })),
    )
    ∷ ("CnFupProgramBeginConfirmType", cn_fup_program_begin_confirm)
    ∷ ("CnFupProgramRequestType", (cn_fup_program_request (record { chunk = none })))
    ∷ ("CnFupProgramConfirmType", cn_fup_program_confirm)
    ∷ ("CnFupProgramEndRequestType", cn_fup_program_end_request)
    ∷ ("CnFupProgramEndConfirmType", cn_fup_program_end_confirm)
    ∷ ("CnFupReadRequestType", (cn_fup_read_request (record { node = none; block = none })))
    ∷ ("CnFupReadConfirmType", (cn_fup_read_confirm (record { chunk = none; last = none })))
    ∷ ("CnFupResetRequestType", (cn_fup_reset_request (record { node = none })))
    ∷ ("CnFupResetConfirmType", cn_fup_reset_confirm)
    ∷ []

-- `GetStructForType(operation.Type.String())`; `none` is the nil interface of the default case.
unfoldable pub get_struct_for_type : EnumText → Option Payload
unfolding struct_cases switch
get_struct_for_type t = switch t struct_cases

-- The cases of `getResponseTypeForOperationType`.
unfoldable pub response_cases : List (String × OperationType)
response_cases =
    ("SetAddressRequest", OperationType.set_address_confirm_type)
    ∷ ("RegisterAppRequest", OperationType.register_app_confirm_type)
    ∷ ("StartSessionRequest", OperationType.start_session_confirm_type)
    ∷ ("CloseSessionRequest", OperationType.close_session_confirm_type)
    ∷ ("ListRegisteredAppsRequest", OperationType.list_registered_apps_confirm_type)
    ∷ ("DeregisterAppRequest", OperationType.set_address_confirm_type)
    ∷ ("ChangePinRequest", OperationType.change_pin_confirm_type)
    ∷ ("GetRemoteAccessIdRequest", OperationType.get_remote_access_id_confirm_type)
    ∷ ("SetRemoteAccessIdRequest", OperationType.set_remote_access_id_confirm_type)
    ∷ ("GetSupportIdRequest", OperationType.get_support_id_confirm_type)
    ∷ ("GetWebIdRequest", OperationType.get_web_id_confirm_type)
    ∷ ("SetWebIdRequest", OperationType.set_web_id_confirm_type)
    ∷ ("SetPushIdRequest", OperationType.set_push_id_confirm_type)
    ∷ ("DebugRequest", OperationType.debug_confirm_type)
    ∷ ("UpgradeRequest", OperationType.upgrade_confirm_type)
    ∷ ("SetDeviceSettingsRequest", OperationType.set_device_settings_confirm_type)
    ∷ ("VersionRequest", OperationType.version_confirm_type)
    ∷ ("CnTimeRequest", OperationType.cn_time_confirm_type)
    ∷ ("CnRmiRequest", OperationType.cn_rmi_response_type)
    ∷ ("CnRmiAsyncRequest", OperationType.cn_rmi_async_confirm_type)
    ∷ ("CnRpdoRequest", OperationType.cn_rpdo_confirm_type)
    ∷ ("CnFupReadRegisterRequest", OperationType.cn_fup_read_register_confirm_type)
    ∷ ("CnFupProgramBeginRequest", OperationType.cn_fup_program_begin_confirm_type)
    ∷ ("CnFupProgramRequest", OperationType.cn_fup_program_confirm_type)
    ∷ ("CnFupProgramEndRequest", OperationType.cn_fup_program_end_confirm_type)
    ∷ ("CnFupReadRequest", OperationType.cn_fup_read_confirm_type)
    ∷ ("CnFupResetRequest", OperationType.cn_fup_reset_confirm_type)
    ∷ []

or_zero : Option OperationType → OperationType
or_zero none = OperationType.no_operation
or_zero (some t) = t

-- A struct with no case keeps the zero value of the result, which is NoOperation.
unfoldable pub get_response_type : Payload → OperationType
unfolding response_cases switch struct_name or_zero
get_response_type p = or_zero (switch (named (struct_name p)) response_cases)
