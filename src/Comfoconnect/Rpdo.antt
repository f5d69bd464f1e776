-- ===== src/Comfoconnect/Rpdo.antt =====
-- pkg/comfoconnect/rpdo.go: the converters of process data, and `Message.DecodePDO` of
-- pkg/comfoconnect/comfoconnect.go. A float64 is the integer that it holds: each is below 2^32, so exact.
pub mod Values
use comfoconnectbridge.Prelude.{
  ℕ, suc, zero, ◌+◌, ◌-◌, ◌*◌, String, Bool, true, false, Option, none, some, List, [], ◌∷◌,
  if◌then◌else◌, ltb, ◌==◌,
}
use comfoconnectbridge.Prelude.Int.{ℤ, pos, negsuc}
use comfoconnectbridge.Go.Errors.{Go, value, panic}
use comfoconnectbridge.Go.Binary.{Bytes, uint16, uint32}
use comfoconnectbridge.Proto.Enums.{OperationType, type_text, is_name}
use comfoconnectbridge.Proto.Payload
use comfoconnectbridge.Proto.Payload.{Payload}
use comfoconnectbridge.Comfoconnect.Message.{Message}

-- The structs RpdoType0 to RpdoType6.
pub data RpdoKind : Type 0 where
  rpdo_type0 rpdo_type1 rpdo_type2 rpdo_type3 rpdo_type6 : RpdoKind

pub record Converter : Type 0 where
  pub kind : RpdoKind
  pub id : ℕ
  pub description : String
  pub raw_value : Option Bytes

abbrev pub int_of : Go ℕ → Go ℤ
int_of (value n) = value (pos n)
int_of panic = panic

-- `rawValue[0]`, and `rawValue[1] * 256` if there is one.
unfoldable pub little_endian : Bytes → Go ℤ
little_endian [] = panic
little_endian (a ∷ []) = value (pos a)
little_endian (a ∷ b ∷ r) = value (pos (a + b * 256))

-- An int16 with the bits `n`.
unfoldable pub int16_of : ℕ → ℤ
int16_of n = if ltb n 32768 then pos n else negsuc (65535 - n)

-- `binary.Read` of an int16, whose error is dropped: the variable keeps its 0.
unfoldable pub read_int16 : Bytes → Go ℤ
unfolding int16_of
read_int16 [] = value (pos 0)
read_int16 (a ∷ []) = value (pos 0)
read_int16 (a ∷ b ∷ r) = value (int16_of (a * 256 + b))

abbrev pub raw_bytes : Option Bytes → Bytes
raw_bytes none = []
raw_bytes (some b) = b

abbrev pub is_set : Option Bytes → ℤ
is_set none = pos 0
is_set (some b) = pos 1

unfoldable pub convert : RpdoKind → Option Bytes → Go ℤ
unfolding little_endian uint16 uint32 read_int16
convert rpdo_type0 raw = value (is_set raw)
convert rpdo_type1 raw = little_endian (raw_bytes raw)
convert rpdo_type2 raw = int_of (uint16 (raw_bytes raw))
convert rpdo_type3 raw = int_of (uint32 (raw_bytes raw))
convert rpdo_type6 raw = read_int16 (raw_bytes raw)

-- The methods `Tofloat64`.
unfoldable pub to_float64 : Converter → Go ℤ
unfolding convert
to_float64 r = convert r.kind r.raw_value

-- The cases of `NewPpid`.
unfoldable pub ppid_cases : List (ℕ × (RpdoKind × String))
ppid_cases =
    (16, (rpdo_type1, "Unknown"))
    ∷ (33, (rpdo_type1, "Unknown"))
    ∷ (37, (rpdo_type1, "Unknown"))
    ∷ (42, (rpdo_type1, "Unknown"))
    ∷ (49, (rpdo_type1, "Operating mode1"))
    ∷ (53, (rpdo_type1, "Unknown"))
    ∷ (56, (rpdo_type1, "Operating mode2"))
    ∷ (57, (rpdo_type1, "Unknown"))
    ∷ (58, (rpdo_type1, "Unknown"))
    ∷ (65, (rpdo_type1, "Fans: Fan speed setting"))
    ∷ (66, (rpdo_type1, "Unknown"))
    ∷ (67, (rpdo_type1, "Unknown"))
    ∷ (70, (rpdo_type1, "Unknown"))
    ∷ (71, (rpdo_type1, "Unknown"))
    ∷ (73, (rpdo_type1, "Unknown"))
    ∷ (74, (rpdo_type1, "Unknown"))
    ∷ (81, (rpdo_type3, "General: Countdown until next fan speed change"))
    ∷ (82, (rpdo_type3, "Unknown"))
    ∷ (85, (rpdo_type3, "Unknown"))
    ∷ (86, (rpdo_type3, "Unknown"))
    ∷ (87, (rpdo_type3, "Unknown"))
    ∷ (89, (rpdo_type3, "Unknown"))
    ∷ (90, (rpdo_type3, "Unknown"))
    ∷ (117, (rpdo_type1, "Fans: Exhaust fan duty"))
    ∷ (118, (rpdo_type1, "Fans: Supply fan duty"))
    ∷ (119, (rpdo_type1, "Fans: Exhaust fan flow"))
    ∷ (120, (rpdo_type1, "Fans: Supply fan flow"))
    ∷ (121, (rpdo_type1, "Fans: Exhaust fan speed"))
    ∷ (122, (rpdo_type1, "Fans: Supply fan speed"))
    ∷ (128, (rpdo_type1, "Power Consumption: Current Ventilation"))
    ∷ (129, (rpdo_type1, "Power Consumption: Total year-to-date"))
    ∷ (130, (rpdo_type1, "Power Consumption: Total from start"))
    ∷ (144, (rpdo_type1, "Preheater Power Consumption: Total year-to-date"))
    ∷ (145, (rpdo_type1, "Preheater Power Consumption: Total from start"))
    ∷ (146, (rpdo_type1, "Preheater Power Consumption: Current Ventilation"))
    ∷ (176, (rpdo_type1, "Unknown"))
    ∷ (192, (rpdo_type1, "Days left before filters must be replaced"))
    ∷ (208, (rpdo_type1, "Unknown temperature"))
    ∷ (209, (rpdo_type1, "Current RMOT"))
    ∷ (210, (rpdo_type1, "Unknown"))
    ∷ (211, (rpdo_type1, "Unknown"))
    ∷ (212, (rpdo_type1, "Temperature profile: cool"))
    ∷ (213, (rpdo_type1, "Avoided Heating: Avoided actual"))
    ∷ (214, (rpdo_type1, "Avoided Heating: Avoided year-to-date"))
    ∷ (215, (rpdo_type1, "Avoided Heating: Avoided total"))
    ∷ (216, (rpdo_type1, "Avoided Cooling: Avoided actual"))
    ∷ (217, (rpdo_type1, "Avoided Cooling: Avoided year-to-date"))
    ∷ (218, (rpdo_type1, "Avoided Cooling: Avoided total"))
    ∷ (219, (rpdo_type1, "Unknown"))
    ∷ (220, (rpdo_type1, "Temperature: Outdoor Air"))
    ∷ (221, (rpdo_type1, "Temperature: Supply Air"))
    ∷ (224, (rpdo_type1, "Unknown"))
    ∷ (225, (rpdo_type1, "Unknown: switches with fan"))
    ∷ (226, (rpdo_type1, "Unknown"))
    ∷ (227, (rpdo_type1, "Bypass state"))
    ∷ (228, (rpdo_type1, "Unknown Frost Protection Unbalance"))
    ∷ (274, (rpdo_type1, "Temperature: Extract Air"))
    ∷ (275, (rpdo_type1, "Temperature: Exhaust Air"))
    ∷ (276, (rpdo_type1, "Temperature: Outdoor Air"))
    ∷ (278, (rpdo_type6, "PostHeaterTempBefore"))
    ∷ (290, (rpdo_type1, "Humidity: Extract Air"))
    ∷ (291, (rpdo_type1, "Humidity: Exhaust Air"))
    ∷ (292, (rpdo_type1, "Humidity: Outdoor Air"))
    ∷ (294, (rpdo_type1, "Humidity: Supply Air"))
    ∷ (321, (rpdo_type1, "Unknown"))
    ∷ (325, (rpdo_type1, "Unknown"))
    ∷ (337, (rpdo_type1, "Unknown"))
    ∷ (338, (rpdo_type1, "Unknown"))
    ∷ (341, (rpdo_type1, "Unknown"))
    ∷ (369, (rpdo_type1, "Unknown"))
    ∷ (370, (rpdo_type1, "Unknown"))
    ∷ (371, (rpdo_type1, "Unknown"))
    ∷ (372, (rpdo_type1, "Unknown"))
    ∷ (384, (rpdo_type1, "Unknown"))
    ∷ (386, (rpdo_type1, "Unknown"))
    ∷ (400, (rpdo_type1, "Unknown"))
    ∷ (401, (rpdo_type1, "Unknown"))
    ∷ (402, (rpdo_type0, "Unknown Post Heater Present"))
    ∷ (416, (rpdo_type6, "unknown Outdoor air temperature"))
    ∷ (417, (rpdo_type6, "unknown GHE Ground temperature"))
    ∷ (418, (rpdo_type1, "unknown GHE State"))
    ∷ (419, (rpdo_type0, "unknown GHE Present"))
    ∷ (785, (rpdo_type0, "ComfoCoolCompressor State"))
    ∷ []

unfoldable pub find_ppid : ℕ → List (ℕ × (RpdoKind × String)) → RpdoKind × String
find_ppid ppid [] = (rpdo_type1, "unknown")
find_ppid ppid ((n, c) ∷ cases) = if ppid == n then c else find_ppid ppid cases

unfoldable pub new_ppid : ℕ → Option Bytes → Converter
unfolding find_ppid ppid_cases
new_ppid ppid raw =
    let c = find_ppid ppid ppid_cases in
    record { kind = c.0; id = ppid; description = c.1; raw_value = raw }

unfoldable pub decode_ppid : Option ℕ → Option Bytes → Go (Option Converter)
unfolding new_ppid
decode_ppid none raw = panic
decode_ppid (some ppid) raw = value (some (new_ppid ppid raw))

unfoldable pub decode_notification : Option Payload → Go (Option Converter)
unfolding decode_ppid
decode_notification (some (Payload.cn_rpdo_notification r)) = decode_ppid r.pdid r.raw_data
decode_notification _ = panic

unfoldable pub decode_typed : Message → Option OperationType → Go (Option Converter)
unfolding decode_notification is_name type_text
decode_typed m none = panic
decode_typed m (some t) =
    if is_name (type_text t) "CnRpdoNotificationType"
    then decode_notification m.operation_type
    else value none

-- `DecodePDO`: the type is dereferenced, the payload asserted to be a notification, the Pdid dereferenced.
unfoldable pub decode_pdo : Message → Go (Option Converter)
unfolding decode_typed
decode_pdo m = decode_typed m m.operation.type
