-- ===== src/Log/Config/Size.antt =====
-- The size limit in bytes that `getLogSize` makes of one in megabytes.
use winservice.Base.{
  ℕ, ◌*◌, ◌<◌, ◌≡◌, ◌↔◌, refl, ap, ℤ, pos, negsuc, int_scale, wrap32, codes, Text, Ends, arith,
}
use winservice.Base.Decimal.{atoi}
use winservice.Log.Env.{LogEnv}
use winservice.Log.State.{Globals}
use winservice.Log.Config.{get_log_size}
use winservice.Log.Config.Settings.{Setting, get_log_size-set}

wrap32-lt : (a : ℤ) (k : ℕ) → wrap32 a ≡ pos k → k < 2147483648
wrap32-lt (pos n) k e = ground arith
wrap32-lt (negsuc n) k e = ground arith

int_scale-lt : (a : ℤ) (k : ℕ) → int_scale 1024 a ≡ pos k → k < 2147483648
unfolding int_scale
int_scale-lt (pos n) k e = wrap32-lt (pos (n * 1024)) k e
int_scale-lt (negsuc n) k e = wrap32-lt (negsuc _) k e

int_scale-small : (n : ℕ) → n < 2097152 → int_scale 1024 (pos n) ≡ pos (n * 1024)
unfolding int_scale
int_scale-small n small = ground arith

megabytes : (n : ℕ) → n < 2048 → int_scale 1024 (int_scale 1024 (pos n)) ≡ pos (n * 1048576)
megabytes n small =
    rw (int_scale-small n (omega (arith, small)), int_scale-small (n * 1024) (omega (arith, small)))
      (ap pos (omega arith))

module _ {W D E : Type 0} (env : LogEnv W D E) where
  -- Where the text of the setting stands for `n` megabytes, `getLogSize` returns 0, and the limit is
  -- that many bytes exactly if `n` is below 2048.
  pub get_log_size-bytes :
      (d : D) (e : E) (t : Text) (n : ℕ) (s : Globals W)
      → Setting env d e (codes "Size") t
      → atoi t ≡ pos n
      → Ends
          (λ code u. (code ≡ 0) × ((u.log_size ≡ pos (n * 1048576)) ↔ (n < 2048)))
          (get_log_size env d e s)
  get_log_size-bytes d e t n s setting value =
      rw (get_log_size-set env d e t s setting, value)
        (
          refl,
          (
            λ limit. omega (arith, int_scale-lt (int_scale 1024 (pos n)) (n * 1048576) limit),
            λ small. megabytes n small,
          ),
        )
