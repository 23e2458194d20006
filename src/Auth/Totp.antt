-- ===== src/Auth/Totp.antt =====
-- The codes of the second factor (app/core/totp.py). The HMAC of a secret and a counter, whose bytes
-- are numbers below 256, is a parameter.
use backup_center_ajust_cons.Base.{
  ℕ, zero, suc, ◌+◌, ◌-◌, ◌*◌, ◌/◌, ◌%◌, ◌≤◌, ◌≡◌, refl, ◌⊎◌, inl, inr, Bool, true, false, ◌||◌,
  List, [], ◌∷◌, arith, if◌then◌else◌, ◌==◌, length, filter,
}
use backup_center_ajust_cons.Text.{Text, text_eq, is_empty}
use backup_center_ajust_cons.Text.Laws.{text_eq_refl}
use backup_center_ajust_cons.Text.Number.{is_digit}

abbrev byte_at : ℕ → List ℕ → ℕ
byte_at i [] = 0
byte_at zero (b ∷ bs) = b
byte_at (suc i) (b ∷ bs) = byte_at i bs

abbrev last_byte : List ℕ → ℕ
last_byte [] = 0
last_byte (b ∷ []) = b
last_byte (b ∷ c ∷ bs) = last_byte (c ∷ bs)

-- `str(code).zfill(6)` of a code below 10 ** 6
unfoldable pub six_digits : ℕ → Text
six_digits code =
    (48 + code / 100000 % 10)
    ∷ (48 + code / 10000 % 10)
    ∷ (48 + code / 1000 % 10)
    ∷ (48 + code / 100 % 10)
    ∷ (48 + code / 10 % 10)
    ∷ (48 + code % 10)
    ∷ []

-- The number in four bytes, without its sign bit, to six decimals.
unfoldable pub code_of : List ℕ → ℕ
code_of digest =
    let offset = last_byte digest % 16 in
    let number =
      ((byte_at offset digest * 256 + byte_at (offset + 1) digest) * 256
          + byte_at (offset + 2) digest)
        * 256
      + byte_at (offset + 3) digest in
    number % 2147483648 % 1000000

-- `_totp_at` with six digits
unfoldable pub totp_at : (Text → ℕ → List ℕ) → Text → ℕ → Text
unfolding code_of six_digits
totp_at hmac secret counter = six_digits (code_of (hmac secret counter))

-- `str.isdigit` of a character below 256, which holds for the superscripts, too
abbrev pub is_digit_char : ℕ → Bool
is_digit_char c = is_digit c || (c == 178 || (c == 179 || c == 185))

-- `verify_totp` with its defaults, at a moment that is 30 seconds or more after the epoch
unfoldable pub verify_totp : (Text → ℕ → List ℕ) → (now : ℕ) → (secret code : Text) → Bool
unfolding totp_at text_eq
verify_totp hmac now secret code =
    let typed = filter is_digit_char code in
    let counter = now / 30 in
    if is_empty secret || is_empty code
    then false
    else (if length typed == 6
        then text_eq (totp_at hmac secret (counter - 1)) typed
          || (text_eq (totp_at hmac secret counter) typed
              || text_eq (totp_at hmac secret (counter + 1)) typed)
        else false)

digit_kept : (n : ℕ) → is_digit_char (48 + n % 10) ≡ true
digit_kept n = ground arith

digits_kept : (code : ℕ) → filter is_digit_char (six_digits code) ≡ six_digits code
unfolding six_digits
digits_kept code =
    rw
      (
        digit_kept (code / 100000),
        digit_kept (code / 10000),
        digit_kept (code / 1000),
        digit_kept (code / 100),
        digit_kept (code / 10),
        digit_kept code,
      )
      refl

six_long :
    (code : ℕ) → ((length (six_digits code) == 6) ≡ true) × (is_empty (six_digits code) ≡ false)
unfolding six_digits
six_long code = (refl, refl)

one_of :
    (counter k : ℕ)
    → counter ≤ k + 1
    → k ≤ counter + 1
    → (counter ≡ k - 1) ⊎ ((counter ≡ k) ⊎ (counter ≡ k + 1))
one_of counter k h l = ground arith

any_of :
    (f : ℕ → Bool) (counter k : ℕ)
    → (counter ≡ k - 1) ⊎ ((counter ≡ k) ⊎ (counter ≡ k + 1))
    → f counter ≡ true
    → (f (k - 1) || (f k || f (k + 1))) ≡ true
any_of f counter k (inl e) h = rw (← e, h) refl
any_of f counter k (inr (inl e)) h = let g : f k ≡ true = rw (← e) h in ground (arith, g)
any_of f counter k (inr (inr e)) h = let g : f (k + 1) ≡ true = rw (← e) h in ground (arith, g)

-- A code that an authenticator shows for a moment at most one step from that of the check is accepted.
pub verify_totp-totp_at :
    (hmac : Text → ℕ → List ℕ) (now counter : ℕ) (secret : Text)
    → is_empty secret ≡ false
    → counter ≤ now / 30 + 1
    → now / 30 ≤ counter + 1
    → verify_totp hmac now secret (totp_at hmac secret counter) ≡ true
unfolding verify_totp totp_at
verify_totp-totp_at hmac now counter secret h k l =
    rw
      (
        h,
        (six_long (code_of (hmac secret counter))).1,
        digits_kept (code_of (hmac secret counter)),
        (six_long (code_of (hmac secret counter))).0,
      )
      (any_of
        (λ c.
          text_eq (six_digits (code_of (hmac secret c)))
            (six_digits (code_of (hmac secret counter))))
        counter (now / 30) (one_of counter (now / 30) k l)
        (text_eq_refl (six_digits (code_of (hmac secret counter)))))
