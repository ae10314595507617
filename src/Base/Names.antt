-- ===== src/Base/Names.antt =====
-- The error numbers that the program returns, negated as it returns them.
use platform_external_drm_hw.Base.Int.{ℤ, pos, negsuc}

abbrev pub ok : ℤ
ok = pos 0

-- -ENOENT, -EINTR, -EAGAIN, -ENOMEM, -ENODEV, -EINVAL, -EALREADY.
abbrev pub enoent : ℤ
enoent = negsuc 1

abbrev pub eintr : ℤ
eintr = negsuc 3

abbrev pub eagain : ℤ
eagain = negsuc 10

abbrev pub enomem : ℤ
enomem = negsuc 11

abbrev pub enodev : ℤ
enodev = negsuc 18

abbrev pub einval : ℤ
einval = negsuc 21

abbrev pub ealready : ℤ
ealready = negsuc 113
