-- ===== src/Server/Page/Form.antt =====
-- internal/server/ui_template.go: the form of a new task. Its texts are ASCII, so that the length of a
-- text is the number of its UTF-16 units.
use worker_lightweight.Base.{
  ℕ, ◌+◌, ◌*◌, ◌-◌, Bool, true, false, not, ◌&&◌, ◌||◌, List, [], ◌∷◌, ◌++◌, Option, none, some, ℤ,
  pos, sub_ℕ, ltb, leb, nat_beq, ltb_ℤ, Text, lit, text_beq, trim_space, length, ◌==◌, text_eq,
  nat_eq, if◌then◌else◌,
}
use worker_lightweight.Model.{CreateTaskRequest}
use worker_lightweight.Server.Page.Script.{Browser}

-- The inputs of the form, as FormData gives them.
pub record NewTask : Type 0 where
  pub name : Text
  pub command : Text
  pub type : Text
  pub cron_expr : Text
  pub max_retry : Text
  pub timeout_sec : Text

-- The messages of setFieldError.
pub data FieldError : Type 0 where
  name_missing name_long command_missing type_missing cron_missing cron_malformed : FieldError
  retry_missing retry_range timeout_missing timeout_range : FieldError

abbrev is_digit : ℕ → Bool
is_digit c = leb b'0' c && leb c b'9'

-- The digits that a text starts with, after `acc`; `none` is NaN.
unfoldable pub leading : Option ℕ → Text → Option ℕ
leading acc [] = acc
leading none (c ∷ s) = let rest = leading (some (c - b'0')) s in if is_digit c then rest else none
leading (some n) (c ∷ s) =
    let rest = leading (some (n * 10 + (c - b'0'))) s in if is_digit c then rest else some n

abbrev positive : Option ℕ → Option ℤ
positive none = none
positive (some n) = some (pos n)

abbrev negative : Option ℕ → Option ℤ
negative none = none
negative (some n) = some (sub_ℕ 0 n)

abbrev parse_signed : Text → Option ℤ
parse_signed [] = none
parse_signed (c ∷ s) =
    if c == b'-'
    then negative (leading none s)
    else if c == b'+'
    then positive (leading none s)
    else positive (leading none (c ∷ s))

-- The integer whose digits parseInt(s, 10) reads, after white space in front. The number that it makes
-- of them compares with 0 and with 100 as the integer does.
unfoldable pub parse_number : Text → Option ℤ
unfolding leading trim_space
parse_number s = parse_signed (trim_space s)

-- The parts of a text between runs of white space, after the part `cur`, and what /^[0-9*\/\-,?]+$/
-- admits.
abbrev is_blank : ℕ → Bool
is_blank c = c == 32 || (leb 9 c && leb c 13)

abbrev cons_part : Text → List Text → List Text
cons_part cur rest = if cur == [] then rest else cur ∷ rest

unfoldable pub fields : Text → Text → List Text
unfolding text_beq
fields cur [] = cons_part cur []
fields cur (c ∷ s) = elim (is_blank c) [
  | true ↦ cons_part cur (fields [] s)
  | false ↦ fields (cur ++ c ∷ []) s
]

abbrev is_cron_char : ℕ → Bool
is_cron_char c = is_digit c || c == b'*' || c == b'/' || c == b'-' || c == b',' || c == b'?'

abbrev all_chars : (ℕ → Bool) → Text → Bool
all_chars p [] = true
all_chars p (c ∷ s) = p c && all_chars p s

abbrev all_fields : List Text → Bool
all_fields [] = true
all_fields (f ∷ fs) = all_chars is_cron_char f && all_fields fs

unfoldable pub is_valid_cron_expr : Text → Bool
unfolding fields trim_space
is_valid_cron_expr expr =
    let parts = fields [] (trim_space expr) in nat_beq (length parts) 6 && all_fields parts

abbrev pub when : Bool → FieldError → List FieldError → List FieldError
when b e others = if b then e ∷ [] else others

abbrev pub out_of_range : (ℤ → Bool) → Option ℤ → Bool
out_of_range p none = true
out_of_range p (some n) = p n

-- The errors of each input.
unfoldable pub name_errors : NewTask → List FieldError
unfolding trim_space text_beq
name_errors fd =
    let name = trim_space fd.name in
    when (name == []) name_missing (when (ltb 200 (length name)) name_long [])

unfoldable pub command_errors : NewTask → List FieldError
unfolding trim_space text_beq
command_errors fd = when (trim_space fd.command == []) command_missing []

unfoldable pub type_errors : NewTask → List FieldError
unfolding text_beq
type_errors fd = when (not (fd.type == lit "once") && not (fd.type == lit "cron")) type_missing []

unfoldable pub cron_errors : NewTask → List FieldError
unfolding trim_space text_beq is_valid_cron_expr
cron_errors fd =
    let expr = trim_space fd.cron_expr in
    if fd.type == lit "cron"
    then when (expr == []) cron_missing (when (not (is_valid_cron_expr expr)) cron_malformed [])
    else []

unfoldable pub retry_errors : NewTask → List FieldError
unfolding text_beq parse_number
retry_errors fd =
    let wrong =
      out_of_range (λ n. ltb_ℤ n (pos 0) || ltb_ℤ (pos 100) n) (parse_number fd.max_retry) in
    when (fd.max_retry == []) retry_missing (when wrong retry_range [])

unfoldable pub timeout_errors : NewTask → List FieldError
unfolding text_beq parse_number
timeout_errors fd =
    let wrong = out_of_range (λ n. ltb_ℤ n (pos 0)) (parse_number fd.timeout_sec) in
    when (fd.timeout_sec == []) timeout_missing (when wrong timeout_range [])

-- The errors that validateCreateForm sets, in its order; it returns whether there is none.
unfoldable pub validate_create_form : NewTask → List FieldError
unfolding name_errors command_errors type_errors cron_errors retry_errors timeout_errors
validate_create_form fd =
    name_errors fd
    ++ (command_errors fd
        ++ (type_errors fd ++ (cron_errors fd ++ (retry_errors fd ++ timeout_errors fd))))

-- An int of the request: NaN becomes null, which encoding/json leaves at 0; a number that does not
-- fit is refused.
abbrev pub int_field : Browser → Option ℤ → Option ℤ
int_field js none = some (pos 0)
int_field js (some n) = js.stored n

abbrev with_numbers : Text → NewTask → Option ℤ → Option ℤ → Option CreateTaskRequest
with_numbers cron_expr fd (some retries) (some timeout) = some (record {
  name = trim_space fd.name;
  command = trim_space fd.command;
  type = fd.type;
  cron_expr = cron_expr;
  max_retry = retries;
  timeout_sec = timeout;
})
with_numbers cron_expr fd _ _ = none

-- The payload of submitCreateTask, as createTask decodes it; `none` is its answer `invalid json`.
unfoldable pub payload : Browser → NewTask → Option CreateTaskRequest
unfolding trim_space text_beq parse_number
payload js fd =
    with_numbers (if fd.type == lit "cron" then trim_space fd.cron_expr else []) fd
      (int_field js (parse_number fd.max_retry)) (int_field js (parse_number fd.timeout_sec))
