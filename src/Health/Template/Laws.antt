-- ===== src/Health/Template/Laws.antt =====
-- What the check of a template accepts, and when the rendering of a template raises nothing.
use server_scan.Prelude.{
  ℕ, ◌+◌, ◌≤◌, String, true, none, some, get_or, dict_get, List, [], ◌∷◌, any, length, str_eq, ltb,
  str_length, ◌≡◌, ◌↔◌, refl, All, Option-cases, inl, inr, arith, ◌||◌,
}
use server_scan.Health.Values.{Value, null}
use server_scan.Health.Values.Laws.{NeverRaises, bind-Raises}
use server_scan.Health.Template.Parse.{Field, Parsed, finished, malformed, yields, parse}
use server_scan.Health.Template.{
  Formatter, Checked, too_long, passed, escaped, invalid, reject_if, ◌&then◌, check_field,
  check_tokens, validate_template, max_template_length, max_template_fields, coerce,
  render_template, render_tokens,
}

-- The fields of a parsed template.
abbrev pub fields_of : Parsed → List Field
fields_of finished = []
fields_of malformed = []
fields_of (yields t ts) = elim t.field [ none ↦ fields_of ts | some f ↦ f ∷ fields_of ts ]

-- No part of the template is malformed.
abbrev pub IsComplete : Parsed → Type 0
IsComplete finished = Unit
IsComplete malformed = ⊥
IsComplete (yields t ts) = IsComplete ts

-- A field that names a declared key, converts nothing and has a plain format.
abbrev pub IsPlainField : Formatter → List String → Field → Type 0
IsPlainField formatter allowed f =
    (formatter.is_field_name f.name ≡ true)
    × (any (λ a. str_eq f.name a) allowed ≡ true)
    × (f.conversion ≡ none)
    × ((str_eq f.format_spec "" || formatter.is_format_spec f.format_spec) ≡ true)

and_then-passed : (a b : Checked) → (a &then b ≡ passed) ↔ (a ≡ passed) × (b ≡ passed)
and_then-passed passed b = (λ h. (refl, h), λ (_, h). h)
and_then-passed escaped b = (λ h. cc h, λ (h, _). cc h)
and_then-passed (invalid e) b = (λ h. cc h, λ (h, _). cc h)

reject_if-passed : (n : ℕ) → (reject_if (ltb max_template_length n) too_long ≡ passed) ↔ (n ≤ 300)
reject_if-passed n = ground arith

module _ (formatter : Formatter) (allowed : List String) where
  check_field-passed :
      (n : ℕ) (f : Field)
      → (check_field formatter allowed n f ≡ passed)
        ↔ (n ≤ max_template_fields) × IsPlainField formatter allowed f
  unfolding check_field
  check_field-passed n f = ground arith

  check_tokens-passed :
      (n : ℕ) (ts : Parsed)
      → n ≤ max_template_fields
      → (check_tokens formatter allowed n ts ≡ passed)
        ↔ IsComplete ts
          × (n + length (fields_of ts) ≤ max_template_fields)
          × All (IsPlainField formatter allowed) (fields_of ts)
  unfolding check_tokens
  check_tokens-passed n finished h = (λ _. (tt, omega arith, tt), λ _. refl)
  check_tokens-passed n malformed h = (λ e. cc e, λ (c, _, _). absurd c)
  check_tokens-passed n (yields t ts) h = elim (Option-cases t.field) [
    | inl e ↦ rw e (check_tokens-passed n ts h)
    | inr (f, e) ↦
        let own = check_field-passed (n + 1) f in
        let both =
          and_then-passed (check_field formatter allowed (n + 1) f)
            (check_tokens formatter allowed (n + 1) ts) in
        rw e (
          λ c.
              let (a, b) = both.0 c in
              let (bound, plain) = own.0 a in
              let (whole, total, all) = (check_tokens-passed (n + 1) ts bound).0 b in
              (whole, omega (arith, total), (plain, all)),
          λ (whole, total, (plain, all)).
              let bound : n + 1 ≤ max_template_fields = omega (arith, total) in
              both.1 (
                own.1 (bound, plain),
                (check_tokens-passed (n + 1) ts bound).1 (whole, omega (arith, total), all),
              ),
        )
  ]

  -- A template passes exactly when it has at most 300 characters, no malformed part and at most ten
  -- fields, and each field names a declared key, converts nothing and has a plain format.
  pub validate_template-passed_iff :
      (template : String)
      → (validate_template formatter template allowed ≡ passed)
        ↔ (str_length template ≤ 300)
          × IsComplete (parse template)
          × (length (fields_of (parse template)) ≤ 10)
          × All (IsPlainField formatter allowed) (fields_of (parse template))
  unfolding validate_template
  validate_template-passed_iff template =
      let tokens = check_tokens-passed 0 (parse template) (omega arith) in
      let size = reject_if-passed (str_length template) in
      let both =
        and_then-passed (reject_if (ltb max_template_length (str_length template)) too_long)
          (check_tokens formatter allowed 0 (parse template)) in
      (
        λ c.
            let (a, b) = both.0 c in
            let (whole, total, all) = tokens.0 b in (size.0 a, whole, omega (arith, total), all),
        λ (short, whole, few, all).
            both.1 (size.1 short, tokens.1 (whole, omega (arith, few), all)),
      )

-- `str` and `format` print the value, whatever the format spec.
abbrev pub IsPrintable : Formatter → Value → Type 0
IsPrintable formatter v = (spec : String) → NeverRaises (coerce formatter v spec)

module _ (formatter : Formatter) (evidence : List (String × Value))
    (printable : (key : String) → IsPrintable formatter (get_or (dict_get key evidence) null)) where
  render_tokens-NeverRaises :
      (ts : Parsed) → IsComplete ts → NeverRaises (render_tokens formatter evidence ts)
  unfolding render_tokens
  render_tokens-NeverRaises finished h = tt
  render_tokens-NeverRaises malformed h = absurd h
  render_tokens-NeverRaises (yields t ts) h = elim (Option-cases t.field) [
    | inl e ↦ rw e (
        bind-Raises (λ _. ⊥) (render_tokens formatter evidence ts) _
          (render_tokens-NeverRaises ts h) (λ later. tt))
    | inr (f, e) ↦ rw e (
        bind-Raises (λ _. ⊥)
          (coerce formatter (get_or (dict_get f.name evidence) null) f.format_spec) _
          (printable f.name f.format_spec)
          (λ shown.
            bind-Raises (λ _. ⊥) (render_tokens formatter evidence ts) _
              (render_tokens-NeverRaises ts h) (λ later. tt)))
  ]

  -- Rendering raises nothing where the template has no malformed part and the evidence prints.
  pub render_template-NeverRaises :
      (template : String)
      → IsComplete (parse template)
      → NeverRaises (render_template formatter template evidence)
  unfolding render_template
  render_template-NeverRaises template h =
      bind-Raises (λ _. ⊥) (render_tokens formatter evidence (parse template)) _
        (render_tokens-NeverRaises (parse template) h) (λ rendered. tt)
