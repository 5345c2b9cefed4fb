-- ===== src/Gst/ProviderSplit/Laws.antt =====
-- Theorems on firmos-backend/engines/gst_components.py.
use firmos.Base.{◌≡◌, ◌∙◌, sym, ap, refl, Bool, true, false, ◌&&◌, Option, List, [], ◌∷◌, arith}
use firmos.Base.Int.{ℤ, eqb_ℤ, eq_of_parts}
use firmos.Base.Lists.{all}
use firmos.Base.Text.{Text}
use firmos.Money.{Number, Converted, converted, money_parse_error, invalid_operation, ◌>>=◌}
use firmos.Gst.ProviderSplit.{
  Tax, Provided, Split, label_of, Label, igst_label, cgst_label, sgst_label, cess_label,
  unknown_label, is_known, is_known_label, add_part, no_parts, parts_total, finish, paise,
  parts_loop, taxable_of, extract_components,
}

and_true : (b : Bool) → b ≡ b && true
and_true true = refl
and_true false = refl

and_false : (b : Bool) → false ≡ b && false
and_false true = refl
and_false false = refl

module _ (decimal : Text → Option Number) where
  >>=-converted :
      {A B : Type 0} (r : Converted A) (f : A → Converted B) (b : B)
      → (r >>= f) ≡ converted b
      → (a : A) × (r ≡ converted a) × (f a ≡ converted b)
  >>=-converted (converted a) f b e = (a, refl, e)
  >>=-converted money_parse_error f b e = cc
  >>=-converted invalid_operation f b e = cc

  add_part-known :
      (l : Label) (a : ℤ) (s : Split)
      → (add_part l a s).components_verified ≡ s.components_verified && is_known_label l
  add_part-known igst_label a s = and_true s.components_verified
  add_part-known cgst_label a s = and_true s.components_verified
  add_part-known sgst_label a s = and_true s.components_verified
  add_part-known cess_label a s = and_true s.components_verified
  add_part-known unknown_label a s = and_false s.components_verified

  parts_loop-known :
      (taxes : List Tax) (s s' : Split)
      → parts_loop decimal taxes s ≡ converted s'
      → s'.components_verified ≡ s.components_verified && all is_known taxes
  unfolding parts_loop
  parts_loop-known [] s s' e =
      let same : s ≡ s' = cc in
      ap (λ x. x.components_verified) (sym same) ∙ and_true s.components_verified
  parts_loop-known (tax ∷ taxes) s s' e =
      let (a, read, rest) =
        >>=-converted (paise decimal tax.tax_amount)
          (λ a. parts_loop decimal taxes (add_part (label_of tax) a s)) s' e in
      let next = add_part (label_of tax) a s in
      ground (arith, parts_loop-known taxes next s' rest, add_part-known (label_of tax) a s)

  -- A split is verified only if the provider states taxes, each with a known label, and its four components
  -- make up the stated total tax.
  pub extract_components-verified :
      (r : Provided) (s : Split)
      → extract_components decimal r ≡ converted s
      → s.components_verified ≡ true
      → (all is_known r.taxes ≡ true)
        × ((no_parts r.taxes).components_verified ≡ true)
        × (paise decimal r.tax_total ≡ converted (parts_total s))
  unfolding extract_components
  extract_components-verified r s e verified =
      let (total_tax, read, e1) = >>=-converted (paise decimal r.tax_total) _ s e in
      let (parts, looped, e2) =
        >>=-converted (parts_loop decimal r.taxes (no_parts r.taxes)) _ s e1 in
      let (sub_total, _, e3) = >>=-converted (paise decimal r.sub_total) _ s e2 in
      let (taxable, _, e4) =
        >>=-converted (taxable_of decimal r.total total_tax sub_total) _ s e3 in
      let same : finish total_tax parts taxable ≡ s = cc in
      let both : parts.components_verified && eqb_ℤ (parts_total parts) total_tax ≡ true =
        ap (λ x. x.components_verified) same ∙ verified in
      let known = parts_loop-known r.taxes (no_parts r.taxes) parts looped in
      let total : total_tax ≡ parts_total parts =
        eq_of_parts total_tax (parts_total parts) (ground arith) in
      (
        ground (arith, known),
        ground (arith, known),
        read ∙ ap converted total ∙ ap (λ x. converted (parts_total x)) same,
      )
