-- ===== src/JumpHost/Breaker/Tests.antt =====
-- The circuit breaker at concrete inputs.
use Prim.Native.Nat.{◌/◌}
use backup_center_ajust_cons.Base.{
  ℕ, ◌+◌, ◌*◌, ◌≤◌, ◌<◌, ◌≡◌, refl, Bool, true, false, List, [], ◌∷◌, arith, replicate,
}
use backup_center_ajust_cons.Text.{Text, codes}
use backup_center_ajust_cons.Redis.Memory.{memory, Memory, empty_memory, change, find_cell}
use backup_center_ajust_cons.JumpHost.Breaker.{
  Settings, check, closed, record_outcome, reset, tripped,
}
use backup_center_ajust_cons.JumpHost.Breaker.Trip.{IsPercent, Decides, check-Decides}
use backup_center_ajust_cons.JumpHost.Breaker.Reset.{record_all, reset_needs_samples}

-- The default settings.
abbrev cfg : Settings
cfg = record { window_seconds = 300; threshold_percent = 70; min_samples = 10; open_seconds = 60 }

abbrev percent : ℕ → ℕ → ℕ
percent f t = f * 100 / t

percent_not_above : (f t : ℕ) → 0 < t → percent f t * t ≤ f * 100
percent_not_above f t h = grind arith

percent_not_far_below : (f t : ℕ) → 0 < t → f * 100 ≤ (percent f t + 1) * t
percent_not_far_below f t h = grind arith

percent-IsPercent : IsPercent percent
percent-IsPercent = record { not_above = percent_not_above; not_far_below = percent_not_far_below }

abbrev label : Text
label = codes "bastion:22"

-- Three successes and seven failures.
abbrev ten : List (Bool × ℕ)
ten =
    (true, 1000)
    ∷ (true, 1001)
    ∷ (false, 1002)
    ∷ (false, 1003)
    ∷ (false, 1004)
    ∷ (false, 1005)
    ∷ (false, 1006)
    ∷ (false, 1007)
    ∷ (false, 1008)
    ∷ (true, 1009)
    ∷ []

abbrev loaded : Memory
loaded = record_all memory percent cfg label ten empty_memory

trips :
    (check memory percent cfg true label 2000 loaded).0
    ≡ record { is_open = true; reason = tripped label 70 7 10; retry_after = 60 }
unfolding check record_outcome change find_cell
trips = refl

too_old : (check memory percent cfg true label 302000 loaded).0 ≡ closed
unfolding check record_outcome change find_cell
too_old = refl

check-Decides_example : Decides cfg (check memory percent cfg true label 2000 loaded).0.is_open 10 7
unfolding record_outcome change find_cell
check-Decides_example =
    check-Decides memory percent cfg label 2000 loaded percent-IsPercent (omega arith) (λ e. cc)
      refl

abbrev nine : List (Bool × ℕ)
nine = replicate 9 (false, 5000)

reset_needs_samples_example :
    (check memory percent cfg true label 6000
      (record_all memory percent cfg label nine (reset memory true loaded).1)).0.is_open
    ≡ false
reset_needs_samples_example =
    reset_needs_samples memory percent cfg label nine 6000 loaded percent-IsPercent (omega arith)
      (λ e. cc) (omega arith)
