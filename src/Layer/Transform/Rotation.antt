-- ===== src/Layer/Transform/Rotation.antt =====
-- What a transform does to a picture: how Android asks for it, and what the value of the rotation property
-- says. A picture is followed by its corners, of which each transform makes a different arrangement.
use platform_external_drm_hw.Base.{ℕ, ◌%◌, ◌==◌, ◌||◌, Bool, not, has_bit, if◌then◌else◌}
use platform_external_drm_hw.Layer.Transform.{rotate_0, rotate_90, rotate_180, rotate_270}

-- A corner: whether it is on the right, and whether it is at the bottom.
pub record Corner : Type 0 where
  pub right : Bool
  pub bottom : Bool

abbrev flip_h : Corner → Corner
flip_h c = record { right = not c.right; bottom = c.bottom }

abbrev flip_v : Corner → Corner
flip_v c = record { right = c.right; bottom = not c.bottom }

-- A quarter turn clockwise takes the top left corner to the top right.
abbrev turn : Corner → Corner
turn c = record { right = not c.bottom; bottom = c.right }

abbrev when : Bool → (Corner → Corner) → Corner → Corner
when b f c = if b then f c else c

-- The transform of Android: the flips of its bits 0 and 1, and then a quarter turn for its bit 2.
abbrev pub asked : ℕ → Corner → Corner
asked sf c = when (has_bit sf 2) turn (when (has_bit sf 1) flip_v (when (has_bit sf 0) flip_h c))

abbrev turns : ℕ → Corner → Corner
turns rotation c =
    if rotation == rotate_90
    then turn c
    else (if rotation == rotate_180
        then turn (turn c)
        else (if rotation == rotate_270 then turn (turn (turn c)) else c))

-- The value of the property: the reflections of its bits 4 and 5, and then the quarter turns of its one
-- rotation.
abbrev pub set_to : ℕ → Corner → Corner
set_to v c = turns (v % 16) (when (has_bit v 5) flip_v (when (has_bit v 4) flip_h c))

abbrev pub has_one_rotation : ℕ → Bool
has_one_rotation v =
    v % 16 == rotate_0 || v % 16 == rotate_90 || v % 16 == rotate_180 || v % 16 == rotate_270
