-- ===== src/Importers/Hisi/Layout.antt =====
-- The planes of an imported YV12 buffer.
use native.Mathlib.Nat.{lt-div-mul-add, mul-mod_left, mul_comm, mul-le-mul_right}
use platform_external_drm_hw.Base.{
  ℕ, zero, suc, ◌+◌, ◌*◌, ◌/◌, ◌%◌, ◌≤◌, ◌≡◌, ◌-◌, ◌<◌, ◌^◌, Bool, true, false, if◌then◌else◌, refl,
  arith, [], ◌∷◌, List,
}
use platform_external_drm_hw.Importers.{yvu420, convert_hal_format_to_drm}
use platform_external_drm_hw.Importers.Hisi.{
  PrivateHandle, hisi_bo, mali_align, vu_stride, v_size, y_size, align_of, to_word, uses_software,
}

-- An entry of an array of four; 0 past its end.
abbrev pub entry : List ℕ → ℕ → ℕ
entry [] i = 0
entry (x ∷ xs) zero = x
entry (x ∷ xs) (suc i) = entry xs i

-- The sizes of the buffer are those of an `int`, and so is that of its first two planes.
pub record FitsInt (h : PrivateHandle) : Type 0 where
  pub height : h.height < 2 ^ 31 - 1
  pub byte_stride : h.byte_stride < 2 ^ 31
  pub planes :
      mali_align h.height 2 * h.byte_stride + vu_stride h * (mali_align h.height 2 / 2) < 2 ^ 31

-- The value is rounded up to a multiple of the base, if it can be.
mali_align_lem :
    (value b : ℕ)
    → value + b < 2 ^ 32
    → (value ≤ mali_align value (b + 1)) × (mali_align value (b + 1) % (b + 1) ≡ 0)
mali_align_lem value b fits =
    let same : to_word (value + (b + 1) - 1) ≡ value + b = omega (arith, fits) in
    let near : value + b < (value + b) / (b + 1) * (b + 1) + (b + 1) =
      lt-div-mul-add (omega arith) in
    rw same (omega (arith, near), mul-mod_left ((value + b) / (b + 1)) (b + 1))

half_rows : (rows : ℕ) → rows < 2 ^ 31 → (rows + 1) / 2 ≤ mali_align rows 2 / 2
half_rows rows fits = omega (arith, fits)

align_of_cases :
    (b : Bool) (value : ℕ)
    → value < 2 ^ 31
    → let align : ℕ = if b then 16 else 128 in
      (value ≤ mali_align value align) × (mali_align value align % align ≡ 0)
align_of_cases true value fits = mali_align_lem value 15 (omega (arith, fits))
align_of_cases false value fits = mali_align_lem value 127 (omega (arith, fits))

align_lem :
    (h : PrivateHandle) (value : ℕ)
    → value < 2 ^ 31
    → (value ≤ mali_align value (align_of h)) × (mali_align value (align_of h) % align_of h ≡ 0)
align_lem h value fits = align_of_cases (uses_software h) value fits

luma : (h : PrivateHandle) → FitsInt h → h.height * h.byte_stride ≤ y_size h
luma h fits =
    let most =
      mul-le-mul_right h.byte_stride (mali_align_lem h.height 1 (omega (arith, fits.height))).0 in
    omega (arith, most, fits.planes)

chroma : (h : PrivateHandle) → FitsInt h → (h.height + 1) / 2 * vu_stride h ≤ v_size h
chroma h fits =
    let most = mul-le-mul_right (vu_stride h) (half_rows h.height (omega (arith, fits.height))) in
    let turned = mul_comm (mali_align h.height 2 / 2) (vu_stride h) in
    omega (arith, most, turned, fits.planes)

-- In an imported YV12 buffer, whose sizes and whose first two planes together fit an int, the planes do not overlap: the V plane starts behind the rows of the Y plane and the U plane behind those of the V plane, of which there are half as many, rounded up; a row of V and U is at least half as long as one of Y, and a multiple of the alignment.
pub hisi_bo-planes :
    (h : PrivateHandle) (gem : ℕ)
    → convert_hal_format_to_drm h.req_format ≡ yvu420
    → FitsInt h
    → let bo = hisi_bo h gem in
      (h.height * entry bo.pitches 0 ≤ entry bo.offsets 1)
      × (entry bo.offsets 1 + (h.height + 1) / 2 * entry bo.pitches 1 ≤ entry bo.offsets 2)
      × (entry bo.pitches 2 ≡ entry bo.pitches 1)
      × (entry bo.pitches 0 / 2 ≤ entry bo.pitches 1)
      × (entry bo.pitches 1 % align_of h ≡ 0)
unfolding hisi_bo
hisi_bo-planes h gem e fits =
    let aligned = align_lem h (h.byte_stride / 2) (omega (arith, fits.byte_stride)) in
    rw e (luma h fits, omega (arith, chroma h fits, fits.planes), refl, aligned.0, aligned.1)
