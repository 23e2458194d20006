-- ===== src/JumpHost/Slots/Tests.antt =====
-- The limits of the jump hosts at concrete inputs.
use backup_center_ajust_cons.Base.{
  ℕ, ◌≡◌, refl, Bool, true, false, none, some, List, [], ◌∷◌, arith,
}
use backup_center_ajust_cons.Text.{Text, codes}
use backup_center_ajust_cons.Text.Dict.{Dict}
use backup_center_ajust_cons.Redis.Memory.{
  memory, Memory, empty_memory, change, find_cell, find_field,
}
use backup_center_ajust_cons.JumpHost.Slots.{
  Settings, LockInfo, down, effective_slots, adapt, parse_overrides, indicates_saturation,
  indicates_severe,
}
use backup_center_ajust_cons.JumpHost.Slots.Adapt.{Moves, adapt-Moves}
use backup_center_ajust_cons.JumpHost.Slots.Streak.{IsShort}

-- The default settings.
abbrev cfg : Settings
cfg = record {
  enabled = true;
  fail_streak = 2;
  success_streak = 8;
  cooldown_seconds = 300;
  streak_ttl_seconds = 3600;
  max_boost = 2;
  severe_fail_streak = 1;
  severe_cooldown_seconds = 900;
  severe_drop_to_one = false;
}

abbrev label : Text
label = codes "bastion:22"

abbrev info : LockInfo
info = record { label = label; base_slots = 4; max_slots = 4 }

abbrev overrides : Dict ℕ
overrides = []

abbrev banner : Text
banner = codes "Error reading SSH protocol banner"

abbrev dropped_state : Memory
dropped_state = (adapt memory cfg true overrides (some info) false banner empty_memory).1

severe_drop :
    (adapt memory cfg true overrides (some info) false banner empty_memory).0 ≡ some (down 4 2)
unfolding adapt effective_slots change find_cell find_field indicates_saturation indicates_severe
severe_drop = refl

limit_after_drop : effective_slots memory cfg true overrides label 4 dropped_state ≡ 2
unfolding adapt effective_slots change find_cell find_field indicates_saturation indicates_severe
limit_after_drop = refl

cooldown_holds : (adapt memory cfg true overrides (some info) false banner dropped_state).0 ≡ none
unfolding adapt effective_slots change find_cell find_field indicates_saturation indicates_severe
cooldown_holds = refl

overrides_parsed :
    parse_overrides (codes " a=3, b = 99 ,junk, c=0")
    ≡ (codes "a", 3) ∷ (codes "b", 16) ∷ (codes "c", 1) ∷ []
unfolding parse_overrides
overrides_parsed = refl

adapt-Moves_example :
    Moves memory cfg false banner overrides info empty_memory
      (adapt memory cfg true overrides (some info) false banner empty_memory)
adapt-Moves_example = adapt-Moves memory cfg overrides info false banner empty_memory refl

abbrev patient : Settings
patient = record cfg { severe_fail_streak = 3; fail_streak = 3 }

abbrev two_outcomes : List (Bool × Text)
two_outcomes = (false, banner) ∷ (true, []) ∷ []

short : IsShort memory patient label 2 empty_memory
unfolding find_cell
short = record { few_successes = omega arith; few_failures = omega arith; few_severe = omega arith }
