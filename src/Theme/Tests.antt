-- ===== src/Theme/Tests.antt =====
-- The theme at concrete inputs.
use cockpit_cronplus.Common.{◌≡◌, refl, true, false, none, [], ◌∷◌}
use cockpit_cronplus.Theme.{light, toggle, change, effective, toggled, changed, init, run}

run_tests : (run (init none true) (changed false ∷ toggled ∷ changed true ∷ [])).shown ≡ light
unfolding init toggle change effective run
run_tests = refl
