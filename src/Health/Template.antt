-- ===== src/Health/Template.antt =====
-- domain/services/health/template.py: the check and the rendering of message templates. Python's
-- `str` and `format`, and the two patterns, are a parameter.
pub mod Parse
pub mod Laws
use server_scan.Prelude.{
  ℕ, ◌+◌, String, Bool, true, false, not, ◌&&◌, Option, none, some, is_some, get_or, dict_get, List,
  [], ◌∷◌, any, take, length, ltb, str_eq, str_take, str_length, str_append, if◌then◌else◌,
}
use server_scan.Health.Values.{
  Value, Scalar, null, scalar, list, Result, ok, raised, ◌>>=◌, value_error, type_error,
}
use server_scan.Health.Template.Parse.{Field, Parsed, finished, malformed, yields, parse}

-- Python's `str` and `format` on the values of the evidence, with what they raise, and the two
-- patterns.
pub record Formatter : Type 0 where
  pub to_text : Scalar → Result String
  pub format : Scalar → String → Result String
  pub is_field_name : String → Bool
  pub is_format_spec : String → Bool

abbrev pub max_template_length : ℕ
max_template_length = 300

abbrev pub max_template_fields : ℕ
max_template_fields = 10

abbrev pub max_rendered_length : ℕ
max_rendered_length = 300

abbrev pub max_list_elements_rendered : ℕ
max_list_elements_rendered = 5

pub data TemplateError : Type 0 where
  too_long too_many_fields bad_field_name undeclared_field has_conversion bad_format_spec :
      TemplateError

-- `invalid` raises `TemplateValidationError`; `escaped` lets the `ValueError` of `parse` out.
pub data Checked : Type 0 where
  passed escaped : Checked
  invalid : TemplateError → Checked

infixr 5 ◌&then◌
abbrev pub ◌&then◌ : Checked → Checked → Checked
passed &then next = next
escaped &then next = escaped
invalid e &then next = invalid e

abbrev pub reject_if : Bool → TemplateError → Checked
reject_if true e = invalid e
reject_if false e = passed

module _ (formatter : Formatter) where
  -- One round of the loop, with `field_count` already raised.
  unfoldable pub check_field : List String → ℕ → Field → Checked
  check_field allowed field_count f =
      reject_if (ltb max_template_fields field_count) too_many_fields
      &then reject_if (not (formatter.is_field_name f.name)) bad_field_name
      &then reject_if (not (any (λ a. str_eq f.name a) allowed)) undeclared_field
      &then reject_if (is_some f.conversion) has_conversion
      &then reject_if
          (not (str_eq f.format_spec "") && not (formatter.is_format_spec f.format_spec))
          bad_format_spec

  unfoldable pub check_tokens : List String → ℕ → Parsed → Checked
  unfolding check_field
  check_tokens allowed field_count finished = passed
  check_tokens allowed field_count malformed = escaped
  check_tokens allowed field_count (yields t ts) = elim t.field [
    | none ↦ check_tokens allowed field_count ts
    | some f ↦
        check_field allowed (field_count + 1) f &then check_tokens allowed (field_count + 1) ts
  ]

  unfoldable pub validate_template : String → List String → Checked
  unfolding check_tokens
  validate_template template allowed =
      reject_if (ltb max_template_length (str_length template)) too_long
      &then check_tokens allowed 0 (parse template)

  -- `except (ValueError, TypeError): return str(value)`
  abbrev pub or_text : Scalar → Result String → Result String
  or_text x (ok s) = ok s
  or_text x (raised value_error) = formatter.to_text x
  or_text x (raised type_error) = formatter.to_text x
  or_text x (raised e) = raised e

  unfoldable pub coerce_scalar : String → Scalar → Result String
  coerce_scalar spec x =
      if str_eq spec "" then formatter.to_text x else or_text x (formatter.format x spec)

  abbrev pub join : List String → String
  join [] = ""
  join (s ∷ []) = s
  join (s ∷ t ∷ ts) = str_append s (str_append ", " (join (t ∷ ts)))

  abbrev pub texts_of : List Scalar → Result (List String)
  texts_of [] = ok []
  texts_of (x ∷ xs) = formatter.to_text x >>= λ s. texts_of xs >>= λ ss. ok (s ∷ ss)

  -- `_coerce`
  unfoldable pub coerce : Value → String → Result String
  unfolding coerce_scalar
  coerce (list xs) spec = texts_of (take max_list_elements_rendered xs) >>= λ shown.
      ok
        (str_append (join shown) (if ltb max_list_elements_rendered (length xs) then ", …" else ""))
  coerce null spec = ok "?"
  coerce (scalar x) spec = coerce_scalar spec x

  unfoldable pub render_tokens : List (String × Value) → Parsed → Result String
  unfolding coerce
  render_tokens evidence finished = ok ""
  render_tokens evidence malformed = raised value_error
  render_tokens evidence (yields t ts) = elim t.field [
    | none ↦ render_tokens evidence ts >>= λ later. ok (str_append t.literal later)
    | some f ↦ coerce (get_or (dict_get f.name evidence) null) f.format_spec >>= λ shown.
        render_tokens evidence ts >>= λ later. ok (str_append t.literal (str_append shown later))
  ]

  unfoldable pub render_template : String → List (String × Value) → Result String
  unfolding render_tokens
  render_template template evidence = render_tokens evidence (parse template) >>= λ rendered.
      ok (str_take max_rendered_length rendered)
