-- ===== src/Auth/Password/Renewed.antt =====
-- A password that was reset is the one that signs in.
use backup_center_ajust_cons.Base.{ℕ, ◌≤◌, ◌≡◌, true, false, some, any, length}
use backup_center_ajust_cons.Text.{Text}
use backup_center_ajust_cons.Text.Number.{is_digit}
use backup_center_ajust_cons.Auth.Account.{User}
use backup_center_ajust_cons.Auth.Password.{is_upper, is_lower, is_special}

renewed : (Text → Text) → ℕ → Text → User → User
renewed hash now password u = record u {
  password_hash = hash password;
  must_change_password = false;
  password_changed_at = some now;
}

abbrev Strong : Text → Type 0
Strong v =
    (8 ≤ length v)
    × (any is_upper v ≡ true)
    × (any is_lower v ≡ true)
    × (any is_digit v ≡ true)
    × (any is_special v ≡ true)
