-- ===== src/Volume.antt =====
-- Volumes in GB: `gb_to_bytes` of xui/client.py and services/client_volume.py.
--
-- A finite float is `mantissa / 2 ^ scale`. The product with 1024 ** 3 is exact, short of the
-- largest floats, and `int` cuts its fraction off. An infinity and nan have no number of bytes; the comparisons with nan are false.
use Prim.Native.Nat.{ℕ, suc, ◌*◌, ◌/◌, ◌^◌}
use mathlib.Core.Bool.{Bool, false, not}
use resellerbot.Prelude.Int.{ℤ, pos, negsuc, sub_ℕ, ltb_ℤ, leb_ℤ}
use resellerbot.Models.{Float, AnyFloat, finite, infinite, nan}

abbrev pub gb : ℕ
gb = 1073741824

abbrev scaled : ℤ → ℕ → ℤ
scaled (pos m) scale = pos (m * gb / 2 ^ scale)
scaled (negsuc m) scale = sub_ℕ 0 (suc m * gb / 2 ^ scale)

unfoldable pub gb_to_bytes : Float → ℤ
gb_to_bytes v = scaled v.mantissa v.scale

-- `v <= 0`
unfoldable pub is_non_positive : Float → Bool
is_non_positive v = leb_ℤ v.mantissa (pos 0)

abbrev times : ℤ → ℕ → ℤ
times (pos m) k = pos (m * k)
times (negsuc m) k = sub_ℕ 0 (suc m * k)

-- `a < b`
unfoldable pub is_less : Float → Float → Bool
is_less a b = ltb_ℤ (times a.mantissa (2 ^ b.scale)) (times b.mantissa (2 ^ a.scale))

abbrev pub min_client_volume_gb : ℕ
min_client_volume_gb = 20

-- `validate_client_volume_gb` raises.
unfoldable pub is_volume_too_low : Float → Bool
is_volume_too_low v = ltb_ℤ v.mantissa (pos (min_client_volume_gb * 2 ^ v.scale))

-- The same tests on what `float` makes of a text.
abbrev pub is_any_non_positive : AnyFloat → Bool
is_any_non_positive (finite v) = is_non_positive v
is_any_non_positive (infinite negative) = negative
is_any_non_positive nan = false

abbrev pub is_any_too_low : AnyFloat → Bool
is_any_too_low (finite v) = is_volume_too_low v
is_any_too_low (infinite negative) = negative
is_any_too_low nan = false

-- `a < b` and `b < a` for a finite `a`.
abbrev pub is_below : Float → AnyFloat → Bool
is_below a (finite b) = is_less a b
is_below a (infinite negative) = not negative
is_below a nan = false

abbrev pub is_above : Float → AnyFloat → Bool
is_above a (finite b) = is_less b a
is_above a (infinite negative) = negative
is_above a nan = false

-- A whole number of GB.
abbrev pub whole_gb : ℕ → Float
whole_gb n = record { mantissa = pos n; scale = 0 }
