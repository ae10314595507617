-- ===== src/Drm/Property.antt =====
-- drmproperty.cpp and drmproperty.h: a property of a KMS object, read from the kernel once.
pub mod Laws
use platform_external_drm_hw.Base.{
  ℕ, ℤ, String, Bool, true, false, none, some, List, [], ◌∷◌, ◌++◌, ◌&&◌, not, get_elem?, length,
  ◌==◌, has_bit, if◌then◌else◌, ok, enoent, einval, str_eq,
}

pub data PropertyType : Type 0 where
  int enum object blob invalid : PropertyType

pub record PropertyEnum : Type 0 where
  pub value : ℕ
  pub name : String

pub record DrmProperty : Type 0 where
  pub id : ℕ
  pub type : PropertyType
  pub flags : ℕ
  pub name : String
  pub value_ : ℕ
  pub values : List ℕ
  pub enums : List PropertyEnum
  pub blob_ids : List ℕ

-- What libdrm's `drmModeGetProperty` hands over: a `drmModePropertyRes`.
pub record PropertyRes : Type 0 where
  pub prop_id : ℕ
  pub flags : ℕ
  pub name : String
  pub values : List ℕ
  pub enums : List PropertyEnum
  pub blob_ids : List ℕ

-- The default constructed property of a field that was never filled.
abbrev pub no_property : DrmProperty
no_property = record {
  id = 0;
  type = invalid;
  flags = 0;
  name = "";
  value_ = 0;
  values = [];
  enums = [];
  blob_ids = [];
}

-- The positions of the flag bits of the kernel interface: DRM_MODE_PROP_RANGE, _IMMUTABLE, _ENUM,
-- _BLOB and _OBJECT.
abbrev range_bit : ℕ
range_bit = 1

abbrev immutable_bit : ℕ
immutable_bit = 2

abbrev enum_bit : ℕ
enum_bit = 3

abbrev blob_bit : ℕ
blob_bit = 4

abbrev object_bit : ℕ
object_bit = 6

unfoldable pub type_of_flags : ℕ → PropertyType → PropertyType
type_of_flags flags old =
    if has_bit flags range_bit
    then int
    else (if has_bit flags enum_bit
        then enum
        else (if has_bit flags object_bit
            then object
            else (if has_bit flags blob_bit then blob else old)))

-- `Init` appends to the vectors of the object it is called on.
unfoldable pub init : DrmProperty → PropertyRes → ℕ → DrmProperty
unfolding type_of_flags
init self p value = record {
  id = p.prop_id;
  type = type_of_flags p.flags self.type;
  flags = p.flags;
  name = p.name;
  value_ = value;
  values = self.values ++ p.values;
  enums = self.enums ++ p.enums;
  blob_ids = self.blob_ids ++ p.blob_ids;
}

-- The switch of `value`, once a value list is known to be there.
value_by_type : PropertyType → ℕ → List PropertyEnum → ℤ × ℕ
value_by_type int value enums = (ok, value)
value_by_type enum value enums = elim (get_elem? enums value) [
  | none ↦ (enoent, 0)
  | some e ↦ (ok, e.value)
]
value_by_type object value enums = (ok, value)
value_by_type _ value enums = (einval, 0)

abbrev is_blob : PropertyType → Bool
is_blob blob = true
is_blob _ = false

unfoldable pub value : DrmProperty → ℤ × ℕ
unfolding value_by_type
value p =
    if is_blob p.type
    then (ok, p.value_)
    else (if length p.values == 0 then (enoent, 0) else value_by_type p.type p.value_ p.enums)

unfoldable pub is_immutable : DrmProperty → Bool
is_immutable p = not (p.id == 0) && has_bit p.flags immutable_bit

unfoldable pub is_range : DrmProperty → Bool
is_range p = not (p.id == 0) && has_bit p.flags range_bit

-- The element `i` of `values_`, behind the two guards that `range_min` and `range_max` share.
range_end : DrmProperty → ℕ → ℤ × ℕ
unfolding is_range
range_end p i =
    if is_range p
    then elim (get_elem? p.values i) [ none ↦ (enoent, 0) | some v ↦ (ok, v) ]
    else (einval, 0)

unfoldable pub range_min : DrmProperty → ℤ × ℕ
unfolding range_end
range_min p = range_end p 0

unfoldable pub range_max : DrmProperty → ℤ × ℕ
unfolding range_end
range_max p = range_end p 1

-- UINT64_MAX, the value that comes with an error.
abbrev pub uint64_max : ℕ
uint64_max = 18446744073709551615

find_enum : List PropertyEnum → String → ℕ × ℤ
find_enum [] name = (uint64_max, einval)
find_enum (e ∷ es) name =
    let rest = find_enum es name in if str_eq e.name name then (e.value, ok) else rest

unfoldable pub get_enum_value_with_name : DrmProperty → String → ℕ × ℤ
unfolding find_enum
get_enum_value_with_name p name = find_enum p.enums name
