-- ===== src/App/Form/Inputs.antt =====
-- The inputs of numbers: what a handler shows in one is what it reads back.
use cockpit_cronplus.Common.{◌≡◌, refl, arith, ℤ, pos, negsuc}
use cockpit_cronplus.Cron.ParseInt.Show.{parse_int-show, parse_int-show_negative}
use cockpit_cronplus.App.Types.{num_or, int_or}
use cockpit_cronplus.App.Form.{show_int}

-- `parseInt(String(n)) || d`
pub int_or-show_int : (n d : ℤ) → int_or (show_int n) d ≡ num_or n d
unfolding show_int int_or
int_or-show_int (pos n) d = rw (int_or, parse_int-show n) refl
int_or-show_int (negsuc n) d = rw (int_or, parse_int-show_negative n) refl

-- Likewise where `n || d` was shown.
pub int_or-num_or : (n d : ℤ) → int_or (show_int (num_or n d)) d ≡ num_or n d
int_or-num_or n d = rw (int_or-show_int (num_or n d) d) (ground arith)
