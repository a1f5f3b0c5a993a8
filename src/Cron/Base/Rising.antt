-- ===== src/Cron/Base/Rising.antt =====
-- cron.js: the times that `getNextRunTimesFromBase` lists.
use cockpit_cronplus.Common.{ℕ, ◌<◌, ◌≡◌, some, List, [], ◌∷◌}
use cockpit_cronplus.Cron.Next.{Spec, Fields, parse_fields, with_defaults}
use cockpit_cronplus.Cron.Next.Sound.{IsPlainSpec}
use cockpit_cronplus.Cron.Next.First.{AreWithin}
use cockpit_cronplus.Cron.Base.Chain.{IsRising}
use cockpit_cronplus.Cron.Base.{last_or}

module _ (fuel count : ℕ) (spec : Spec) (now : ℕ) {f : Fields}
    (complete : with_defaults spec ≡ spec) (plain : IsPlainSpec spec)
    (parse : parse_fields fuel spec ≡ some f) (within : AreWithin f) where
  -- Rising times of which the last one lies before `t`.
  abbrev IsUnder : ℕ → List ℕ → Type 0
  IsUnder t [] = Unit
  IsUnder t (r ∷ rs) = IsRising spec (r ∷ rs) × (last_or r rs < t)
