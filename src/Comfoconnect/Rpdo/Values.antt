-- ===== src/Comfoconnect/Rpdo/Values.antt =====
-- What the converters of pkg/comfoconnect/rpdo.go report, and when they panic.
use comfoconnectbridge.Prelude.{
  ℕ, ◌≡◌, refl, arith, String, Bool, true, false, not, ◌&&◌, ◌||◌, Option, List, [], ◌∷◌, length,
  ltb, ◌==◌,
}
use comfoconnectbridge.Prelude.Int.{negsuc}
use comfoconnectbridge.Go.Errors.{Go, value, panic}
use comfoconnectbridge.Go.Binary.{Bytes}
use comfoconnectbridge.Comfoconnect.Rpdo.{
  RpdoKind, rpdo_type0, rpdo_type1, rpdo_type2, rpdo_type3, rpdo_type6, Converter, raw_bytes,
  convert, to_float64, ppid_cases, find_ppid, new_ppid,
}

-- The fewest bytes that a converter reads without a panic.
abbrev pub needed : RpdoKind → ℕ
needed rpdo_type0 = 0
needed rpdo_type1 = 1
needed rpdo_type2 = 2
needed rpdo_type3 = 4
needed rpdo_type6 = 0

abbrev pub is_panic {ℓ} : {A : Type ℓ} → Go A → Bool
is_panic (value a) = false
is_panic panic = true

-- `Tofloat64` panics exactly if the raw value is shorter than the converter needs: one byte for
-- RpdoType1, two for RpdoType2, four for RpdoType3, none for RpdoType0 and RpdoType6.
pub to_float64_panics :
    (r : Converter) → is_panic (to_float64 r) ≡ ltb (length (raw_bytes r.raw_value)) (needed r.kind)
unfolding to_float64
to_float64_panics r = go r.kind (r.raw_value)
  where
    go :
        (k : RpdoKind) (raw : Option Bytes)
        → is_panic (convert k raw) ≡ ltb (length (raw_bytes raw)) (needed k)
    go rpdo_type0 raw = ground arith
    go rpdo_type1 raw = ground arith
    go rpdo_type2 raw = ground arith
    go rpdo_type3 raw = ground arith
    go rpdo_type6 raw = ground arith

-- The converter of `NewPpid` keeps the id and the data, and never is an RpdoType2.
abbrev is_two : RpdoKind → Bool
is_two rpdo_type2 = true
is_two _ = false

abbrev no_two : List (ℕ × (RpdoKind × String)) → Bool
no_two [] = true
no_two ((n, c) ∷ cases) = not (is_two c.0) && no_two cases

find_ppid_not_two :
    (ppid : ℕ) (cases : List (ℕ × (RpdoKind × String)))
    → no_two cases ≡ true
    → is_two (find_ppid ppid cases).0 ≡ false
unfolding find_ppid
find_ppid_not_two ppid [] h = refl
find_ppid_not_two ppid ((n, c) ∷ cases) h = ground (arith, find_ppid_not_two ppid cases)

pub new_ppid_lem :
    (ppid : ℕ) (raw : Option Bytes)
    → ((new_ppid ppid raw).id ≡ ppid)
      × ((new_ppid ppid raw).raw_value ≡ raw)
      × (is_two (new_ppid ppid raw).kind ≡ false)
unfolding new_ppid
new_ppid_lem ppid raw = (refl, refl, find_ppid_not_two ppid ppid_cases (unfold ppid_cases in refl))

-- The ids whose converter is an RpdoType6.
abbrev pub is_signed_id : ℕ → Bool
is_signed_id ppid = ppid == 278 || ppid == 416 || ppid == 417

abbrev is_six : RpdoKind → Bool
is_six rpdo_type6 = true
is_six _ = false

abbrev six_signed : List (ℕ × (RpdoKind × String)) → Bool
six_signed [] = true
six_signed ((n, c) ∷ cases) = (not (is_six c.0) || is_signed_id n) && six_signed cases

find_ppid_six :
    (ppid : ℕ) (cases : List (ℕ × (RpdoKind × String)))
    → six_signed cases ≡ true
    → is_six (find_ppid ppid cases).0 ≡ true
    → is_signed_id ppid ≡ true
unfolding find_ppid
find_ppid_six ppid [] h k = cc
find_ppid_six ppid ((n, c) ∷ cases) h k = ground (arith, find_ppid_six ppid cases)

convert_negative :
    (k : RpdoKind) (raw : Option Bytes) (n : ℕ) → convert k raw ≡ value (negsuc n) → is_six k ≡ true
unfolding convert
convert_negative rpdo_type0 raw n h = ground arith
convert_negative rpdo_type1 raw n h = ground arith
convert_negative rpdo_type2 raw n h = ground arith
convert_negative rpdo_type3 raw n h = ground arith
convert_negative rpdo_type6 raw n h = refl

-- Only the process data 278, 416 and 417 can be reported as negative: every other converter that
-- `NewPpid` makes reads its bytes as an unsigned number.
pub new_ppid_negative :
    (ppid : ℕ) (raw : Option Bytes) (n : ℕ)
    → to_float64 (new_ppid ppid raw) ≡ value (negsuc n)
    → is_signed_id ppid ≡ true
unfolding to_float64 new_ppid
new_ppid_negative ppid raw n h =
    find_ppid_six ppid ppid_cases (unfold ppid_cases in refl)
      (convert_negative (find_ppid ppid ppid_cases).0 raw n h)
