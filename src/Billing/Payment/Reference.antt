-- ===== src/Billing/Payment/Reference.antt =====
-- The reference that a checkout gives to Mercado Pago, written and read.
use backup_center_ajust_cons.Base.{ℕ, ◌≡◌, refl, ap, ◌∙◌, Bool, false, [], ◌∷◌, ◌++◌, ◌==◌, All}
use backup_center_ajust_cons.Text.{Text, codes, strip, is_space, is_empty, text_eq}
use backup_center_ajust_cons.Text.Split.{split_on, split_once}
use backup_center_ajust_cons.Text.Dict.{insert}
use backup_center_ajust_cons.Billing.Payment.{
  new_external_reference, add_parts, parse_external_reference,
}
use backup_center_ajust_cons.Text.Plain.{
  Free, NotSpace, All-map, All-append, split_on-Free, split_on-append, strip_same, free_of,
}

-- A character that an id may have: no colon, no bar and no white space.
abbrev pub IsPlain : ℕ → Type 0
IsPlain c = ((c == 58) ≡ false) × ((c == 124) ≡ false) × (is_space c ≡ false)

plain-Free_bar : (s : Text) → All IsPlain s → All (Free 124) s
plain-Free_bar s h = All-map (λ c k. k.1) s h

plain-NotSpace : (s : Text) → All IsPlain s → All NotSpace s
plain-NotSpace s h = All-map (λ c k. k.2) s h

abbrev tenant_part : Text → Text
tenant_part id = codes "tenant:" ++ id

abbrev plan_part : Text → Text
plan_part id = codes "plan:" ++ id

abbrev invoice_part : Text → Text
invoice_part id = codes "invoice:" ++ id

tenant_key : (strip (codes "tenant") ≡ codes "tenant")
unfolding strip
tenant_key = refl

plan_key : (strip (codes "plan") ≡ codes "plan")
unfolding strip
plan_key = refl

invoice_key : (strip (codes "invoice") ≡ codes "invoice")
unfolding strip
invoice_key = refl

-- What the three parts add.
add_parts_lem :
    (t p i : Text)
    → strip t ≡ t
    → strip p ≡ p
    → strip i ≡ i
    → add_parts (tenant_part t ∷ plan_part p ∷ invoice_part i ∷ []) []
      ≡ (codes "tenant", t) ∷ (codes "plan", p) ∷ (codes "invoice", i) ∷ []
unfolding add_parts split_once insert text_eq
add_parts_lem t p i a b c = rw (tenant_key, plan_key, invoice_key, a, b, c) refl

split_reference :
    (t p i : Text)
    → All IsPlain t
    → All IsPlain p
    → All IsPlain i
    → split_on 124 (tenant_part t ++ 124 ∷ (plan_part p ++ 124 ∷ invoice_part i))
      ≡ tenant_part t ∷ plan_part p ∷ invoice_part i ∷ []
split_reference t p i a b c =
    let bar : ℕ → Bool = λ c. c == 124 in
    split_on-append 124 (tenant_part t) (plan_part p ++ 124 ∷ invoice_part i) (
      All-append (Free 124) (codes "tenant:") t (free_of bar (codes "tenant:") refl)
        (plain-Free_bar t a))
    ∙ ap (λ ps. tenant_part t ∷ ps)
        (split_on-append 124 (plan_part p) (invoice_part i) (
            All-append (Free 124) (codes "plan:") p (free_of bar (codes "plan:") refl)
              (plain-Free_bar p b))
          ∙ ap (λ ps. plan_part p ∷ ps)
              (split_on-Free 124 (invoice_part i) (
                All-append (Free 124) (codes "invoice:") i (free_of bar (codes "invoice:") refl)
                  (plain-Free_bar i c))))

reference-NotSpace :
    (t p i : Text)
    → All IsPlain t
    → All IsPlain p
    → All IsPlain i
    → All NotSpace (tenant_part t ++ 124 ∷ (plan_part p ++ 124 ∷ invoice_part i))
reference-NotSpace t p i a b c =
    All-append NotSpace (codes "tenant:") (t ++ 124 ∷ (plan_part p ++ 124 ∷ invoice_part i))
      (free_of is_space (codes "tenant:") refl)
      (All-append NotSpace t (codes "|plan:" ++ (p ++ 124 ∷ invoice_part i)) (plain-NotSpace t a) (
        All-append NotSpace (codes "|plan:") (p ++ 124 ∷ invoice_part i)
          (free_of is_space (codes "|plan:") refl)
          (All-append NotSpace p (codes "|invoice:" ++ i) (plain-NotSpace p b) (
            All-append NotSpace (codes "|invoice:") i (free_of is_space (codes "|invoice:") refl)
              (plain-NotSpace i c)))))

parse_of :
    (r : Text)
    → strip r ≡ r
    → is_empty r ≡ false
    → parse_external_reference r ≡ add_parts (split_on 124 r) []
unfolding parse_external_reference
parse_of r h k = rw (h, k) refl

-- The reference of a tenant, a plan and an invoice, whose ids hold no colon, no bar and no white space,
-- is read back as the three ids under their names.
pub parse-new_external_reference :
    (tenant_id plan_id invoice_id : Text)
    → All IsPlain tenant_id
    → All IsPlain plan_id
    → All IsPlain invoice_id
    → parse_external_reference (new_external_reference tenant_id plan_id invoice_id)
      ≡ (codes "tenant", tenant_id) ∷ (codes "plan", plan_id) ∷ (codes "invoice", invoice_id) ∷ []
unfolding new_external_reference
parse-new_external_reference t p i a b c =
    parse_of (tenant_part t ++ 124 ∷ (plan_part p ++ 124 ∷ invoice_part i))
      (strip_same _ (reference-NotSpace t p i a b c)) refl
    ∙ ap (λ ps. add_parts ps []) (split_reference t p i a b c)
    ∙ add_parts_lem t p i (strip_same t (plain-NotSpace t a)) (strip_same p (plain-NotSpace p b))
        (strip_same i (plain-NotSpace i c))

-- The reference has no white space around it.
pub strip-new_external_reference :
    (tenant_id plan_id invoice_id : Text)
    → All IsPlain tenant_id
    → All IsPlain plan_id
    → All IsPlain invoice_id
    → strip (new_external_reference tenant_id plan_id invoice_id)
      ≡ new_external_reference tenant_id plan_id invoice_id
unfolding new_external_reference
strip-new_external_reference t p i a b c =
    strip_same (tenant_part t ++ 124 ∷ (plan_part p ++ 124 ∷ invoice_part i))
      (reference-NotSpace t p i a b c)
