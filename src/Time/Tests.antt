-- ===== src/Time/Tests.antt =====
-- The formats of time.js at concrete inputs.
use cockpit_cronplus.Common.{◌≡◌, refl, none, some, codes, show}
use cockpit_cronplus.Time.{format_relative_time, format_short_time}

relative_tests :
    (format_relative_time 5000 0 ≡ codes "5秒")
    × (format_relative_time 59600 0 ≡ codes "1分钟")
    × (format_relative_time 5400000 0 ≡ codes "1h30m")
    × (format_relative_time 180000000 0 ≡ codes "2d2h")
    × (format_relative_time 0 7200000 ≡ codes "-7200秒")
    × (format_short_time (λ s. none) (codes "soon") ≡ some (codes "soon"))
unfolding format_relative_time format_short_time show
relative_tests = (refl, refl, refl, refl, refl, refl)
