-- ===== src/Credit/Tiers.antt =====
-- The tiers that the user interface shows (frontend/src/lib/tiers.ts) and the group labels that the
-- backend reports (shared/tierHelpers.ts). A score is a whole number; `none` is a missing or
-- non-finite one.
use Prim.Native.String.{String}
use lendoor_stellar.Common.{
  ℕ, ◌-◌, ◌*◌, ◌≡◌, Bool, not, Option, none, some, List, [], ◌∷◌, ltb, ◌==◌, if◌then◌else◌, min,
  max, get_or, arith,
}
use lendoor_stellar.Credit.Ladder.{get_step_for_score}

abbrev pub max_score : ℕ
max_score = 1000

abbrev pub max_credit_level : ℕ
max_credit_level = 11

abbrev pub xp_per_score : ℕ
xp_per_score = 10

-- GROUP_BY_SCORE
abbrev pub group_by_score : List (ℕ × String)
group_by_score =
    (1, "Novato")
    ∷ (2, "Novato")
    ∷ (3, "Activo")
    ∷ (4, "Activo")
    ∷ (5, "Estable")
    ∷ (6, "Estable")
    ∷ (7, "Confiable")
    ∷ (8, "Confiable")
    ∷ (9, "Referente")
    ∷ (10, "Referente")
    ∷ (11, "Leyenda")
    ∷ []

abbrev lookup_label : ℕ → List (ℕ × String) → String
lookup_label n [] = "Novato"
lookup_label n ((s, label) ∷ rows) = if n == s then label else lookup_label n rows

-- Both files: a missing score is 1, and a score is clamped to 1 .. 11.
abbrev pub clamped : Option ℕ → ℕ
clamped none = 1
clamped (some n) = max 1 (min max_credit_level n)

-- getGroupLabelForScore of shared/tierHelpers.ts
unfoldable pub shared_group_label : Option ℕ → String
shared_group_label score = lookup_label (clamped score) group_by_score

pub record TierDefinition : Type 0 where
  pub score : ℕ
  pub limit_usdc : ℕ
  pub name : String
  pub emoji : String
  pub group_label : String

abbrev pub tier : ℕ → ℕ → String → String → String → TierDefinition
tier score limit name emoji label = record {
  score = score;
  limit_usdc = limit;
  name = name;
  emoji = emoji;
  group_label = label;
}

-- TIERS
abbrev pub tiers : List TierDefinition
tiers =
    tier 1 1 "Nivel 1: Novato" "🌱" "Novato"
    ∷ tier 2 3 "Nivel 2: Novato" "🌱" "Novato"
    ∷ tier 3 4 "Nivel 3: Activo" "🚀" "Activo"
    ∷ tier 4 6 "Nivel 4: Activo" "🚀" "Activo"
    ∷ tier 5 8 "Nivel 5: Estable" "🌍" "Estable"
    ∷ tier 6 10 "Nivel 6: Estable" "🌍" "Estable"
    ∷ tier 7 12 "Nivel 7: Confiable" "🛡" "Confiable"
    ∷ tier 8 15 "Nivel 8: Confiable" "🛡" "Confiable"
    ∷ tier 9 18 "Nivel 9: Referente" "⚡" "Referente"
    ∷ tier 10 22 "Nivel 10: Referente" "⚡" "Referente"
    ∷ tier 11 25 "Nivel 11: Leyenda" "👑" "Leyenda"
    ∷ []

pub data TierState : Type 0 where
  past current locked : TierState

-- `TIERS[clamped - 1]!`, which is never out of range
unfoldable pub get_tier_for_score : Option ℕ → TierDefinition
get_tier_for_score score =
    get_or tiers (clamped score - 1) (tier 1 1 "Nivel 1: Novato" "🌱" "Novato")

unfoldable pub get_group_label_for_score : Option ℕ → String
unfolding get_tier_for_score
get_group_label_for_score score = (get_tier_for_score score).group_label

abbrev pub xp_threshold_for_score : ℕ → ℕ
xp_threshold_for_score score = (score - 1) * xp_per_score

unfoldable pub tier_state : TierDefinition → ℕ → Bool → TierState
tier_state t current_score has_score =
    if not has_score
    then locked
    else if t.score == current_score
    then current
    else if ltb t.score current_score
    then past
    else locked

unfoldable pub xp_needed_to_unlock : TierDefinition → ℕ → Bool → ℕ
xp_needed_to_unlock t xp_safe has_xp =
    if not has_xp then xp_threshold_for_score t.score else xp_threshold_for_score t.score - xp_safe

-- The label the interface shows for a score is the label the backend reports for it.
pub group_labels_agree :
    (score : Option ℕ) → get_group_label_for_score score ≡ shared_group_label score
unfolding get_group_label_for_score shared_group_label get_tier_for_score
group_labels_agree score = ground arith

-- The tier that the interface shows for a score is the step of the backend's ladder for it: the
-- same score and the same limit.
pub tiers_mirror_ladder :
    (n : ℕ)
    → ((get_tier_for_score (some n)).score ≡ (get_step_for_score n).score)
      × ((get_tier_for_score (some n)).limit_usdc ≡ (get_step_for_score n).limit_usdc)
unfolding get_tier_for_score get_step_for_score
tiers_mirror_ladder n = ground arith
