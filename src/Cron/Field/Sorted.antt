-- ===== src/Cron/Field/Sorted.antt =====
-- The array of `parseFieldValues` is strictly ascending, and holds the keys that were collected.
use cockpit_cronplus.Common.{
  ◌≡◌, refl, false, ◌||◌, ◌∙◌, List, [], ◌∷◌, ℤ, ◌<ℤ◌, eqb_ℤ, eqb_ℤ→eq, eqb_ℤ_refl, All, arith,
}
use cockpit_cronplus.Cron.Field.{has_key, add_key, insert_sorted, sort_values}
use cockpit_cronplus.Cron.Field.Search.{IsSorted}

-- Each key once.
abbrev pub IsKeySet : List ℤ → Type 0
IsKeySet [] = Unit
IsKeySet (v ∷ vs) = (has_key v vs ≡ false) × IsKeySet vs

pub add_key-IsKeySet : (v : ℤ) (keys : List ℤ) → IsKeySet keys → IsKeySet (add_key v keys)
add_key-IsKeySet v keys h = ground arith

pub has_key-add_key :
    (u v : ℤ) (keys : List ℤ) → has_key u (add_key v keys) ≡ (eqb_ℤ v u || has_key u keys)
has_key-add_key u v keys = ground (arith, eqb_ℤ→eq v u)

pub has_key-insert_sorted :
    (u v : ℤ) (ws : List ℤ) → has_key u (insert_sorted v ws) ≡ (eqb_ℤ v u || has_key u ws)
has_key-insert_sorted u v [] = refl
has_key-insert_sorted u v (w ∷ ws) = ground (arith, has_key-insert_sorted u v ws)

pub has_key-sort_values : (u : ℤ) (vs : List ℤ) → has_key u (sort_values vs) ≡ has_key u vs
has_key-sort_values u [] = refl
has_key-sort_values u (v ∷ vs) =
    ground (arith, has_key-insert_sorted u v (sort_values vs), has_key-sort_values u vs)

insert_sorted-above :
    (u v : ℤ) (ws : List ℤ) → u <ℤ v → All (λ w. u <ℤ w) ws → All (λ w. u <ℤ w) (insert_sorted v ws)
insert_sorted-above u v [] h _ = (h, tt)
insert_sorted-above u v (w ∷ ws) h (p, a) = ground (arith, insert_sorted-above u v ws h a)

All-below_trans : (u v : ℤ) (ws : List ℤ) → u <ℤ v → All (λ w. v <ℤ w) ws → All (λ w. u <ℤ w) ws
All-below_trans u v [] h _ = tt
All-below_trans u v (w ∷ ws) h (p, a) = (omega arith, All-below_trans u v ws h a)

insert_sorted-IsSorted :
    (v : ℤ) (ws : List ℤ) → has_key v ws ≡ false → IsSorted ws → IsSorted (insert_sorted v ws)
insert_sorted-IsSorted v [] h _ = (tt, tt)
insert_sorted-IsSorted v (w ∷ ws) h (low, s) = ground (
  arith,
  eqb_ℤ_refl v,
  All-below_trans v w ws,
  insert_sorted-above w v ws,
  insert_sorted-IsSorted v ws,
)

pub sort_values-IsSorted : (vs : List ℤ) → IsKeySet vs → IsSorted (sort_values vs)
sort_values-IsSorted [] _ = tt
sort_values-IsSorted (v ∷ vs) (new, h) =
    insert_sorted-IsSorted v (sort_values vs) (has_key-sort_values v vs ∙ new)
      (sort_values-IsSorted vs h)
