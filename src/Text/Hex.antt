-- ===== src/Text/Hex.antt =====
-- src/utils/WebXHexUtils.h, with the results of src/utils/WebXResult.h.
use webx_engine.Common.{ℕ, ◌%◌, ◌^◌, ◌<◌, ◌≡◌, arith, Option, none, some, Result, ok, err}
use webx_engine.Text.{Text}
use webx_engine.Text.Numbers.{stoul, print_hex}
use webx_engine.Text.RoundTrip.{stoul-print_hex}

abbrev of_ulong : Option Text → Option ℕ → Option (Result Text ℕ)
of_ulong error (some n) = some (ok (n % 2 ^ 32))
of_ulong none none = none
of_ulong (some e) none = some (err e)

-- `HexUtils::toUint32`. `describe` is the formatting of the error, and is nothing where it throws; the
-- result is nothing where the function throws.
unfoldable pub to_uint32 : (describe : Text → Option Text) → Text → Option (Result Text ℕ)
to_uint32 describe s = of_ulong (describe s) (stoul s)

pub to_uint32-print_hex :
    (describe : Text → Option Text) (w n : ℕ)
    → n < 2 ^ 32
    → to_uint32 describe (print_hex w n) ≡ some (ok n)
unfolding to_uint32
to_uint32-print_hex describe w n h = rw (stoul-print_hex w n (omega arith)) (ground arith)
