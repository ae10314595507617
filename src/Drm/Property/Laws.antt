-- ===== src/Drm/Property/Laws.antt =====
-- What the queries of a property answer.
use platform_external_drm_hw.Base.{String, List, [], ◌∷◌, ◌≡◌, refl, ◌⊎◌, inr, ok, einval, arith}
use platform_external_drm_hw.Drm.Property.{
  DrmProperty, PropertyEnum, find_enum, get_enum_value_with_name,
}

find_enum_code :
    (es : List PropertyEnum) (name : String)
    → ((find_enum es name).1 ≡ ok) ⊎ ((find_enum es name).1 ≡ einval)
unfolding find_enum
find_enum_code [] name = inr refl
find_enum_code (e ∷ es) name = ground (arith, find_enum_code es name)

-- The lookup succeeds or fails with -EINVAL.
pub get_enum_value_with_name_code :
    (p : DrmProperty) (name : String)
    → ((get_enum_value_with_name p name).1 ≡ ok) ⊎ ((get_enum_value_with_name p name).1 ≡ einval)
unfolding get_enum_value_with_name
get_enum_value_with_name_code p name = find_enum_code p.enums name
