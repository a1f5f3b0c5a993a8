-- ===== src/Cron/Base/Chain.antt =====
-- Lists of instants that satisfy an expression, each later than the one before it.
use cockpit_cronplus.Common.{ℕ, zero, suc, ◌<◌, ◌≡◌, refl, true, List, [], ◌∷◌, ◌++◌, take}
use cockpit_cronplus.Cron.Next.{Spec, match_cron}
use cockpit_cronplus.Cron.Base.{last_or}

-- Instants after `t` that satisfy the expression, each later than the one before it.
abbrev pub Follow : Spec → ℕ → List ℕ → Type 0
Follow spec t [] = Unit
Follow spec t (u ∷ us) = (t < u) × (match_cron u spec ≡ true) × Follow spec u us

abbrev pub IsRising : Spec → List ℕ → Type 0
IsRising spec [] = Unit
IsRising spec (t ∷ ts) = (match_cron t spec ≡ true) × Follow spec t ts

module _ (spec : Spec) where
  pub Follow-push :
      (t : ℕ) (us : List ℕ) (v : ℕ)
      → Follow spec t us
      → last_or t us < v
      → match_cron v spec ≡ true
      → Follow spec t (us ++ v ∷ [])
  Follow-push t [] v h later hits = (later, hits, tt)
  Follow-push t (u ∷ us) v (after, hit, h) later hits =
      (after, hit, Follow-push u us v h later hits)

  pub last_or-push : (t : ℕ) (us : List ℕ) (v : ℕ) → last_or t (us ++ v ∷ []) ≡ v
  last_or-push t [] v = refl
  last_or-push t (u ∷ us) v = last_or-push u us v

  pub Follow-take : (n t : ℕ) (us : List ℕ) → Follow spec t us → Follow spec t (take n us)
  Follow-take zero t us h = tt
  Follow-take (suc n) t [] h = tt
  Follow-take (suc n) t (u ∷ us) (after, hit, h) = (after, hit, Follow-take n u us h)

  pub IsRising-take : (n : ℕ) (ts : List ℕ) → IsRising spec ts → IsRising spec (take n ts)
  IsRising-take zero ts h = tt
  IsRising-take (suc n) [] h = tt
  IsRising-take (suc n) (t ∷ ts) (hit, h) = (hit, Follow-take n t ts h)
