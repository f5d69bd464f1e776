-- ===== src/Proto/Enums.antt =====
-- proto/zehnder.pb.go: the enumerations. A Go enumeration is an int32, so a value may be none of the
-- named ones: `unrecognized n` is the int32 with the bits `n`. `String()` of a named value is its name,
-- and of any other value its decimal number.
use comfoconnectbridge.Prelude.{
  ℕ, String, Bool, false, Option, none, some, List, [], ◌∷◌, if◌then◌else◌,
}
use text.Mathlib.Text.{◌==◌ as str_eq}

pub data EnumText : Type 0 where
  named : String → EnumText
  number : ℕ → EnumText

-- `text == name`, where the name is no decimal number.
unfoldable pub is_name : EnumText → String → Bool
is_name (named s) name = str_eq s name
is_name (number n) name = false

-- A `switch` over texts: the first case that matches, or none for `default`.
unfoldable pub switch {ℓ} : {A : Type ℓ} → EnumText → List (String × A) → Option A
unfolding is_name
switch t [] = none
switch t ((name, a) ∷ cases) = if is_name t name then some a else switch t cases

pub data OperationType : Type 0 where
  no_operation : OperationType
  set_address_request_type : OperationType
  register_app_request_type : OperationType
  start_session_request_type : OperationType
  close_session_request_type : OperationType
  list_registered_apps_request_type : OperationType
  deregister_app_request_type : OperationType
  change_pin_request_type : OperationType
  get_remote_access_id_request_type : OperationType
  set_remote_access_id_request_type : OperationType
  get_support_id_request_type : OperationType
  set_support_id_request_type : OperationType
  get_web_id_request_type : OperationType
  set_web_id_request_type : OperationType
  set_push_id_request_type : OperationType
  debug_request_type : OperationType
  upgrade_request_type : OperationType
  set_device_settings_request_type : OperationType
  version_request_type : OperationType
  set_address_confirm_type : OperationType
  register_app_confirm_type : OperationType
  start_session_confirm_type : OperationType
  close_session_confirm_type : OperationType
  list_registered_apps_confirm_type : OperationType
  deregister_app_confirm_type : OperationType
  change_pin_confirm_type : OperationType
  get_remote_access_id_confirm_type : OperationType
  set_remote_access_id_confirm_type : OperationType
  get_support_id_confirm_type : OperationType
  set_support_id_confirm_type : OperationType
  get_web_id_confirm_type : OperationType
  set_web_id_confirm_type : OperationType
  set_push_id_confirm_type : OperationType
  debug_confirm_type : OperationType
  upgrade_confirm_type : OperationType
  set_device_settings_confirm_type : OperationType
  version_confirm_type : OperationType
  gateway_notification_type : OperationType
  keep_alive_type : OperationType
  factory_reset_type : OperationType
  cn_time_request_type : OperationType
  cn_time_confirm_type : OperationType
  cn_node_request_type : OperationType
  cn_node_notification_type : OperationType
  cn_rmi_request_type : OperationType
  cn_rmi_response_type : OperationType
  cn_rmi_async_request_type : OperationType
  cn_rmi_async_confirm_type : OperationType
  cn_rmi_async_response_type : OperationType
  cn_rpdo_request_type : OperationType
  cn_rpdo_confirm_type : OperationType
  cn_rpdo_notification_type : OperationType
  cn_alarm_notification_type : OperationType
  cn_fup_read_register_request_type : OperationType
  cn_fup_read_register_confirm_type : OperationType
  cn_fup_program_begin_request_type : OperationType
  cn_fup_program_begin_confirm_type : OperationType
  cn_fup_program_request_type : OperationType
  cn_fup_program_confirm_type : OperationType
  cn_fup_program_end_request_type : OperationType
  cn_fup_program_end_confirm_type : OperationType
  cn_fup_read_request_type : OperationType
  cn_fup_read_confirm_type : OperationType
  cn_fup_reset_request_type : OperationType
  cn_fup_reset_confirm_type : OperationType
  unrecognized : ℕ → OperationType

pub data GatewayResult : Type 0 where
  ok : GatewayResult
  bad_request : GatewayResult
  internal_error : GatewayResult
  not_reachable : GatewayResult
  other_session : GatewayResult
  not_allowed : GatewayResult
  no_resources : GatewayResult
  not_exist : GatewayResult
  rmi_error : GatewayResult
  unrecognized : ℕ → GatewayResult

pub data UpgradeRequestCommand : Type 0 where
  upgrade_start : UpgradeRequestCommand
  upgrade_continue : UpgradeRequestCommand
  upgrade_finish : UpgradeRequestCommand
  upgrade_abort : UpgradeRequestCommand
  unrecognized : ℕ → UpgradeRequestCommand

pub data DebugRequestCommand : Type 0 where
  dbg_echo : DebugRequestCommand
  dbg_sleep : DebugRequestCommand
  dbg_session_echo : DebugRequestCommand
  dbg_print_settings : DebugRequestCommand
  dbg_alarm : DebugRequestCommand
  dbg_led : DebugRequestCommand
  dbg_gpi : DebugRequestCommand
  dbg_gpo : DebugRequestCommand
  dbg_rs232_write : DebugRequestCommand
  dbg_rs232_read : DebugRequestCommand
  dbg_can_write : DebugRequestCommand
  dbg_can_read : DebugRequestCommand
  dbg_knx_write : DebugRequestCommand
  dbg_knx_read : DebugRequestCommand
  dbg_toggle : DebugRequestCommand
  dbg_reboot : DebugRequestCommand
  dbg_cloud : DebugRequestCommand
  dbg_eeprom_read : DebugRequestCommand
  dbg_eeprom_write : DebugRequestCommand
  unrecognized : ℕ → DebugRequestCommand

pub data NodeModeType : Type 0 where
  node_legacy : NodeModeType
  node_offline : NodeModeType
  node_normal : NodeModeType
  node_update : NodeModeType
  unrecognized : ℕ → NodeModeType

-- The constants' values.
unfoldable pub to_int32 : OperationType → ℕ
to_int32 no_operation = 0
to_int32 set_address_request_type = 1
to_int32 register_app_request_type = 2
to_int32 start_session_request_type = 3
to_int32 close_session_request_type = 4
to_int32 list_registered_apps_request_type = 5
to_int32 deregister_app_request_type = 6
to_int32 change_pin_request_type = 7
to_int32 get_remote_access_id_request_type = 8
to_int32 set_remote_access_id_request_type = 9
to_int32 get_support_id_request_type = 10
to_int32 set_support_id_request_type = 11
to_int32 get_web_id_request_type = 12
to_int32 set_web_id_request_type = 13
to_int32 set_push_id_request_type = 14
to_int32 debug_request_type = 15
to_int32 upgrade_request_type = 16
to_int32 set_device_settings_request_type = 17
to_int32 version_request_type = 18
to_int32 set_address_confirm_type = 51
to_int32 register_app_confirm_type = 52
to_int32 start_session_confirm_type = 53
to_int32 close_session_confirm_type = 54
to_int32 list_registered_apps_confirm_type = 55
to_int32 deregister_app_confirm_type = 56
to_int32 change_pin_confirm_type = 57
to_int32 get_remote_access_id_confirm_type = 58
to_int32 set_remote_access_id_confirm_type = 59
to_int32 get_support_id_confirm_type = 60
to_int32 set_support_id_confirm_type = 61
to_int32 get_web_id_confirm_type = 62
to_int32 set_web_id_confirm_type = 63
to_int32 set_push_id_confirm_type = 64
to_int32 debug_confirm_type = 65
to_int32 upgrade_confirm_type = 66
to_int32 set_device_settings_confirm_type = 67
to_int32 version_confirm_type = 68
to_int32 gateway_notification_type = 100
to_int32 keep_alive_type = 101
to_int32 factory_reset_type = 102
to_int32 cn_time_request_type = 30
to_int32 cn_time_confirm_type = 31
to_int32 cn_node_request_type = 42
to_int32 cn_node_notification_type = 32
to_int32 cn_rmi_request_type = 33
to_int32 cn_rmi_response_type = 34
to_int32 cn_rmi_async_request_type = 35
to_int32 cn_rmi_async_confirm_type = 36
to_int32 cn_rmi_async_response_type = 37
to_int32 cn_rpdo_request_type = 38
to_int32 cn_rpdo_confirm_type = 39
to_int32 cn_rpdo_notification_type = 40
to_int32 cn_alarm_notification_type = 41
to_int32 cn_fup_read_register_request_type = 70
to_int32 cn_fup_read_register_confirm_type = 71
to_int32 cn_fup_program_begin_request_type = 72
to_int32 cn_fup_program_begin_confirm_type = 73
to_int32 cn_fup_program_request_type = 74
to_int32 cn_fup_program_confirm_type = 75
to_int32 cn_fup_program_end_request_type = 76
to_int32 cn_fup_program_end_confirm_type = 77
to_int32 cn_fup_read_request_type = 78
to_int32 cn_fup_read_confirm_type = 79
to_int32 cn_fup_reset_request_type = 80
to_int32 cn_fup_reset_confirm_type = 81
to_int32 (unrecognized n) = n

-- `GatewayOperation_OperationType_name`, and `String` of a value that it lacks.
unfoldable pub type_text : OperationType → EnumText
type_text no_operation = named "NoOperation"
type_text set_address_request_type = named "SetAddressRequestType"
type_text register_app_request_type = named "RegisterAppRequestType"
type_text start_session_request_type = named "StartSessionRequestType"
type_text close_session_request_type = named "CloseSessionRequestType"
type_text list_registered_apps_request_type = named "ListRegisteredAppsRequestType"
type_text deregister_app_request_type = named "DeregisterAppRequestType"
type_text change_pin_request_type = named "ChangePinRequestType"
type_text get_remote_access_id_request_type = named "GetRemoteAccessIdRequestType"
type_text set_remote_access_id_request_type = named "SetRemoteAccessIdRequestType"
type_text get_support_id_request_type = named "GetSupportIdRequestType"
type_text set_support_id_request_type = named "SetSupportIdRequestType"
type_text get_web_id_request_type = named "GetWebIdRequestType"
type_text set_web_id_request_type = named "SetWebIdRequestType"
type_text set_push_id_request_type = named "SetPushIdRequestType"
type_text debug_request_type = named "DebugRequestType"
type_text upgrade_request_type = named "UpgradeRequestType"
type_text set_device_settings_request_type = named "SetDeviceSettingsRequestType"
type_text version_request_type = named "VersionRequestType"
type_text set_address_confirm_type = named "SetAddressConfirmType"
type_text register_app_confirm_type = named "RegisterAppConfirmType"
type_text start_session_confirm_type = named "StartSessionConfirmType"
type_text close_session_confirm_type = named "CloseSessionConfirmType"
type_text list_registered_apps_confirm_type = named "ListRegisteredAppsConfirmType"
type_text deregister_app_confirm_type = named "DeregisterAppConfirmType"
type_text change_pin_confirm_type = named "ChangePinConfirmType"
type_text get_remote_access_id_confirm_type = named "GetRemoteAccessIdConfirmType"
type_text set_remote_access_id_confirm_type = named "SetRemoteAccessIdConfirmType"
type_text get_support_id_confirm_type = named "GetSupportIdConfirmType"
type_text set_support_id_confirm_type = named "SetSupportIdConfirmType"
type_text get_web_id_confirm_type = named "GetWebIdConfirmType"
type_text set_web_id_confirm_type = named "SetWebIdConfirmType"
type_text set_push_id_confirm_type = named "SetPushIdConfirmType"
type_text debug_confirm_type = named "DebugConfirmType"
type_text upgrade_confirm_type = named "UpgradeConfirmType"
type_text set_device_settings_confirm_type = named "SetDeviceSettingsConfirmType"
type_text version_confirm_type = named "VersionConfirmType"
type_text gateway_notification_type = named "GatewayNotificationType"
type_text keep_alive_type = named "KeepAliveType"
type_text factory_reset_type = named "FactoryResetType"
type_text cn_time_request_type = named "CnTimeRequestType"
type_text cn_time_confirm_type = named "CnTimeConfirmType"
type_text cn_node_request_type = named "CnNodeRequestType"
type_text cn_node_notification_type = named "CnNodeNotificationType"
type_text cn_rmi_request_type = named "CnRmiRequestType"
type_text cn_rmi_response_type = named "CnRmiResponseType"
type_text cn_rmi_async_request_type = named "CnRmiAsyncRequestType"
type_text cn_rmi_async_confirm_type = named "CnRmiAsyncConfirmType"
type_text cn_rmi_async_response_type = named "CnRmiAsyncResponseType"
type_text cn_rpdo_request_type = named "CnRpdoRequestType"
type_text cn_rpdo_confirm_type = named "CnRpdoConfirmType"
type_text cn_rpdo_notification_type = named "CnRpdoNotificationType"
type_text cn_alarm_notification_type = named "CnAlarmNotificationType"
type_text cn_fup_read_register_request_type = named "CnFupReadRegisterRequestType"
type_text cn_fup_read_register_confirm_type = named "CnFupReadRegisterConfirmType"
type_text cn_fup_program_begin_request_type = named "CnFupProgramBeginRequestType"
type_text cn_fup_program_begin_confirm_type = named "CnFupProgramBeginConfirmType"
type_text cn_fup_program_request_type = named "CnFupProgramRequestType"
type_text cn_fup_program_confirm_type = named "CnFupProgramConfirmType"
type_text cn_fup_program_end_request_type = named "CnFupProgramEndRequestType"
type_text cn_fup_program_end_confirm_type = named "CnFupProgramEndConfirmType"
type_text cn_fup_read_request_type = named "CnFupReadRequestType"
type_text cn_fup_read_confirm_type = named "CnFupReadConfirmType"
type_text cn_fup_reset_request_type = named "CnFupResetRequestType"
type_text cn_fup_reset_confirm_type = named "CnFupResetConfirmType"
type_text (unrecognized n) = number n

-- `GatewayOperation_OperationType_value`.
unfoldable pub type_values : List (String × ℕ)
type_values =
    ("NoOperation", 0)
    ∷ ("SetAddressRequestType", 1)
    ∷ ("RegisterAppRequestType", 2)
    ∷ ("StartSessionRequestType", 3)
    ∷ ("CloseSessionRequestType", 4)
    ∷ ("ListRegisteredAppsRequestType", 5)
    ∷ ("DeregisterAppRequestType", 6)
    ∷ ("ChangePinRequestType", 7)
    ∷ ("GetRemoteAccessIdRequestType", 8)
    ∷ ("SetRemoteAccessIdRequestType", 9)
    ∷ ("GetSupportIdRequestType", 10)
    ∷ ("SetSupportIdRequestType", 11)
    ∷ ("GetWebIdRequestType", 12)
    ∷ ("SetWebIdRequestType", 13)
    ∷ ("SetPushIdRequestType", 14)
    ∷ ("DebugRequestType", 15)
    ∷ ("UpgradeRequestType", 16)
    ∷ ("SetDeviceSettingsRequestType", 17)
    ∷ ("VersionRequestType", 18)
    ∷ ("SetAddressConfirmType", 51)
    ∷ ("RegisterAppConfirmType", 52)
    ∷ ("StartSessionConfirmType", 53)
    ∷ ("CloseSessionConfirmType", 54)
    ∷ ("ListRegisteredAppsConfirmType", 55)
    ∷ ("DeregisterAppConfirmType", 56)
    ∷ ("ChangePinConfirmType", 57)
    ∷ ("GetRemoteAccessIdConfirmType", 58)
    ∷ ("SetRemoteAccessIdConfirmType", 59)
    ∷ ("GetSupportIdConfirmType", 60)
    ∷ ("SetSupportIdConfirmType", 61)
    ∷ ("GetWebIdConfirmType", 62)
    ∷ ("SetWebIdConfirmType", 63)
    ∷ ("SetPushIdConfirmType", 64)
    ∷ ("DebugConfirmType", 65)
    ∷ ("UpgradeConfirmType", 66)
    ∷ ("SetDeviceSettingsConfirmType", 67)
    ∷ ("VersionConfirmType", 68)
    ∷ ("GatewayNotificationType", 100)
    ∷ ("KeepAliveType", 101)
    ∷ ("FactoryResetType", 102)
    ∷ ("CnTimeRequestType", 30)
    ∷ ("CnTimeConfirmType", 31)
    ∷ ("CnNodeRequestType", 42)
    ∷ ("CnNodeNotificationType", 32)
    ∷ ("CnRmiRequestType", 33)
    ∷ ("CnRmiResponseType", 34)
    ∷ ("CnRmiAsyncRequestType", 35)
    ∷ ("CnRmiAsyncConfirmType", 36)
    ∷ ("CnRmiAsyncResponseType", 37)
    ∷ ("CnRpdoRequestType", 38)
    ∷ ("CnRpdoConfirmType", 39)
    ∷ ("CnRpdoNotificationType", 40)
    ∷ ("CnAlarmNotificationType", 41)
    ∷ ("CnFupReadRegisterRequestType", 70)
    ∷ ("CnFupReadRegisterConfirmType", 71)
    ∷ ("CnFupProgramBeginRequestType", 72)
    ∷ ("CnFupProgramBeginConfirmType", 73)
    ∷ ("CnFupProgramRequestType", 74)
    ∷ ("CnFupProgramConfirmType", 75)
    ∷ ("CnFupProgramEndRequestType", 76)
    ∷ ("CnFupProgramEndConfirmType", 77)
    ∷ ("CnFupReadRequestType", 78)
    ∷ ("CnFupReadConfirmType", 79)
    ∷ ("CnFupResetRequestType", 80)
    ∷ ("CnFupResetConfirmType", 81)
    ∷ []
