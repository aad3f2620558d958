-- ===== src/Health/Template/Parse.antt =====
-- `string.Formatter().parse` of Python's standard library, which domain/services/health/template.py
-- goes through: one pass over the text, which hands out the parts in front of a malformed one before
-- it raises `ValueError`.
use Prim.Native.Char.{Char, code}
use server_scan.Prelude.{
  ℕ, suc, String, Option, none, some, str_append, str_eq, ◌==◌, if◌then◌else◌,
}

-- One part of a template: literal text, and the field after it with its name, its format spec and
-- its conversion.
pub record Field : Type 0 where
  pub name : String
  pub format_spec : String
  pub conversion : Option String

pub record Token : Type 0 where
  pub literal : String
  pub field : Option Field

-- What the loop over `parse` sees: parts, and then the end or a `ValueError`.
pub data Parsed : Type 0 where
  finished malformed : Parsed
  yields : Token → Parsed → Parsed

-- What has been read of a part: in literal text, behind a brace, in the name of a field or in its
-- brackets, behind `!`, behind the conversion, or in the format spec with the braces left to close.
pub data Reading : Type 0 where
  in_text after_open after_close : String → Reading
  in_name in_brackets in_conversion : String → String → Reading
  after_conversion : String → String → String → Reading
  in_spec : String → String → Option String → String → ℕ → Reading

pub data Next : Type 0 where
  go_on : Reading → Next
  emit : Token → Next
  fail : Next

abbrev add_char : String → Char → String
add_char s c = str_append s (String.◌∷◌ c String.[])

abbrev plain : String → Token
plain literal = record { literal = literal; field = none }

abbrev with_field : String → String → String → Option String → Token
with_field literal name format_spec conversion = record {
  literal = literal;
  field = some (record { name = name; format_spec = format_spec; conversion = conversion });
}

abbrev read_name : String → String → Char → Next
read_name literal name c =
    if code c == b'{'
    then fail
    else if code c == b'}'
    then emit (with_field literal name "" none)
    else if code c == b':'
    then go_on (in_spec literal name none "" 1)
    else if code c == b'!'
    then go_on (in_conversion literal name)
    else if code c == b'['
    then go_on (in_brackets literal (add_char name c))
    else go_on (in_name literal (add_char name c))

-- A format spec ends at the brace that closes its field; `depth` braces are open.
abbrev close_spec : String → String → Option String → String → ℕ → Char → Next
close_spec literal name conversion spec (suc (suc depth)) c =
    go_on (in_spec literal name conversion (add_char spec c) (suc depth))
close_spec literal name conversion spec _ c = emit (with_field literal name spec conversion)

abbrev read_char : Reading → Char → Next
read_char (in_text literal) c =
    if code c == b'{'
    then go_on (after_open literal)
    else if code c == b'}'
    then go_on (after_close literal)
    else go_on (in_text (add_char literal c))
read_char (after_open literal) c =
    if code c == b'{' then emit (plain (add_char literal c)) else read_name literal "" c
read_char (after_close literal) c =
    if code c == b'}' then emit (plain (add_char literal c)) else fail
read_char (in_name literal name) c = read_name literal name c
read_char (in_brackets literal name) c =
    if code c == b']'
    then go_on (in_name literal (add_char name c))
    else go_on (in_brackets literal (add_char name c))
read_char (in_conversion literal name) c =
    go_on (after_conversion literal name (String.◌∷◌ c String.[]))
read_char (after_conversion literal name conversion) c =
    if code c == b'}'
    then emit (with_field literal name "" (some conversion))
    else if code c == b':'
    then go_on (in_spec literal name (some conversion) "" 1)
    else fail
read_char (in_spec literal name conversion spec depth) c =
    if code c == b'{'
    then go_on (in_spec literal name conversion (add_char spec c) (suc depth))
    else if code c == b'}'
    then close_spec literal name conversion spec depth c
    else go_on (in_spec literal name conversion (add_char spec c) depth)

abbrev read_end : Reading → Parsed
read_end (in_text literal) = if str_eq literal "" then finished else yields (plain literal) finished
read_end _ = malformed

unfoldable pub parse_from : Reading → String → Parsed
parse_from reading String.[] = read_end reading
parse_from reading (String.◌∷◌ c s) = elim (read_char reading c) [
  | go_on next ↦ parse_from next s
  | emit token ↦ yields token (parse_from (in_text "") s)
  | fail ↦ malformed
]

unfoldable pub parse : String → Parsed
unfolding parse_from
parse template = parse_from (in_text "") template
