-- ===== src/Schedule/Time/Sane.antt =====
-- The text of a time (`sanitize_daily_time`), and the next run from any texts.
use backup_center_ajust_cons.Base.{
  ℕ, suc, zero, ◌<◌, ◌≡◌, refl, ap, sym, ◌∙◌, Bool, true, false, ◌&&◌, ◌∷◌, Option, none, some,
  ◌==◌, arith, Bool-cases, inl, inr, All,
}
use backup_center_ajust_cons.Base.Int.{ℤ, pos, negsuc, pos_part}
use backup_center_ajust_cons.Text.{Text, codes, strip}
use backup_center_ajust_cons.Text.Number.{parse_int}
use backup_center_ajust_cons.Text.Plain.{Free, NotSpace, split_on-Free, split_on-append, strip_same}
use backup_center_ajust_cons.Schedule.{Local, wall}
use backup_center_ajust_cons.Schedule.Next.{IsTime, IsDate, next_daily_lem}
use backup_center_ajust_cons.Schedule.Time.{
  of_parts, parse_time, in_range, two_digits, show_time, shown_or, sanitize, numbers_of,
  next_daily_run,
}

abbrev all_below : (ℕ → Bool) → ℕ → Bool
all_below p zero = true
all_below p (suc n) = p n && all_below p n

below_lem : (p : ℕ → Bool) (n k : ℕ) → all_below p n ≡ true → k < n → p k ≡ true
below_lem p zero k h l = absurd (omega arith)
below_lem p (suc n) k h l = elim (Bool-cases (k == n)) [
  | inl e ↦ let same : k ≡ n = ground arith in rw same (ground arith)
  | inr e ↦ below_lem p n k (ground arith) (ground arith)
]

abbrev is_read : Option ℤ → ℕ → Bool
is_read none k = false
is_read (some (pos n)) k = n == k
is_read (some (negsuc n)) k = false

is_read_eq : (o : Option ℤ) (k : ℕ) → is_read o k ≡ true → o ≡ some (pos k)
is_read_eq none k h = cc
is_read_eq (some (pos n)) k h = let same : n ≡ k = ground arith in ap (λ x. some (pos x)) same
is_read_eq (some (negsuc n)) k h = cc

digits_read : all_below (λ k. is_read (parse_int (two_digits k)) k) 60 ≡ true
unfolding parse_int
digits_read = refl

parse-two_digits : (k : ℕ) → k < 60 → parse_int (two_digits k) ≡ some (pos k)
parse-two_digits k h =
    is_read_eq (parse_int (two_digits k)) k
      (below_lem (λ x. is_read (parse_int (two_digits x)) x) 60 k digits_read h)

two_digits-Free : (k : ℕ) → k < 60 → All (Free 58) (two_digits k)
two_digits-Free k h = (ground arith, (ground arith, tt))

-- A time that is written is read back.
parse-show_time : (hh mm : ℕ) → IsTime hh mm → parse_time (show_time hh mm) ≡ some (pos hh, pos mm)
unfolding parse_time
parse-show_time hh mm (h, m) =
    ap of_parts (
      split_on-append 58 (two_digits hh) (two_digits mm) (two_digits-Free hh (omega arith))
      ∙ ap (λ ps. two_digits hh ∷ ps)
          (split_on-Free 58 (two_digits mm) (two_digits-Free mm (omega arith))))
    ∙ rw (parse-two_digits hh (omega arith), parse-two_digits mm (omega arith)) refl

show_time-NotSpace : (hh mm : ℕ) → IsTime hh mm → All NotSpace (show_time hh mm)
show_time-NotSpace hh mm (h, m) =
    (ground arith, (ground arith, (refl, (ground arith, (ground arith, tt)))))

-- The text of a time of the day.
abbrev pub IsShown : Text → Type 0
IsShown s = (hh : ℕ) × ((mm : ℕ) × (IsTime hh mm × (s ≡ show_time hh mm)))

shown_or-IsShown :
    (default : Text) (o : Option (ℤ × ℤ)) → IsShown default → IsShown (shown_or default o)
shown_or-IsShown default none d = d
shown_or-IsShown default (some (hh, mm)) d = elim (Bool-cases (in_range hh mm)) [
  | inl e ↦ rw e (pos_part hh, (pos_part mm, ((ground arith, ground arith), refl)))
  | inr e ↦ rw e d
]

sanitize-IsShown : (default s : Text) → IsShown default → IsShown (sanitize default s)
unfolding sanitize
sanitize-IsShown default s d = shown_or-IsShown default (parse_time (strip s)) d

sanitize-show_time :
    (default : Text) (hh mm : ℕ)
    → IsTime hh mm
    → sanitize default (show_time hh mm) ≡ show_time hh mm
unfolding sanitize
sanitize-show_time default hh mm (h, m) =
    rw
      (strip_same (show_time hh mm) (show_time-NotSpace hh mm (h, m)), parse-show_time hh mm (h, m))
      (in_range_shown (ground arith))
  where
    in_range_shown :
        in_range (pos hh) (pos mm) ≡ true
        → shown_or default (some (pos hh, pos mm)) ≡ show_time hh mm
    in_range_shown e = rw e refl

-- The text that `sanitize_daily_time` gives is the text of a time of the day, whatever it is given, and is
-- left as it is by another call, if the default is such a text.
pub sanitize_idem :
    (default s : Text)
    → IsShown default
    → IsShown (sanitize default s) × (sanitize default (sanitize default s) ≡ sanitize default s)
sanitize_idem default s d =
    let (hh, (mm, (ok, e))) = sanitize-IsShown default s d in
    (
      sanitize-IsShown default s d,
      ap (sanitize default) e ∙ (sanitize-show_time default hh mm ok ∙ sym e),
    )

-- The numbers of a sanitized text.
numbers_ok :
    (default s : Text)
    → IsShown default
    → IsTime
        (numbers_of (parse_time (sanitize default s))).0
        (numbers_of (parse_time (sanitize default s))).1
numbers_ok default s d =
    let (hh, (mm, (ok, e))) = sanitize-IsShown default s d in rw (e, parse-show_time hh mm ok) ok

two_o_clock : IsShown (codes "02:00")
two_o_clock = (2, (0, ((omega arith, omega arith), refl)))

pub daily_ahead :
    (s : Text) (reference : Local) → IsDate reference → wall reference < next_daily_run s reference
unfolding next_daily_run
daily_ahead s reference d =
    let n = numbers_of (parse_time (sanitize (codes "02:00") s)) in
    (next_daily_lem n.0 n.1 reference (numbers_ok (codes "02:00") s two_o_clock) d.time_max).0
