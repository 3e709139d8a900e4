-- ===== src/Kernel/Parse.antt =====
-- internal/kernel/parse.go: the decisions in the text that a model returns. `encoding/json` enters as
-- a record of two decoders, for an array of actions and for one action.
pub mod Strip
pub mod Marked
pub mod Accepted
use fxcore.Prelude.{
  ℕ, zero, suc, ◌+◌, Bool, true, false, ◌&&◌, ◌||◌, not, Option, none, some, String, str_eq, List,
  [], ◌∷◌, ◌++◌, map, ltb, ◌==◌, if◌then◌else◌, length, take, drop,
}
use fxcore.Prelude.Float.{Float64}
use fxcore.Prelude.Text.{Text, codes, index, trim_space}
use fxcore.Model.Decision.{
  DecisionAction, action_open_long, action_open_short, action_close_long, action_close_short,
  action_hold, action_wait,
}

abbrev pub decision_tag : Text
decision_tag = codes "<decision>"

abbrev pub decision_end : Text
decision_end = codes "</decision>"

abbrev pub json_fence : Text
json_fence = codes "```json"

abbrev pub fence : Text
fence = codes "```"

abbrev pub reasoning_tag : Text
reasoning_tag = codes "<reasoning>"

abbrev pub reasoning_end : Text
reasoning_end = codes "</reasoning>"

abbrev pub valid_action : String → Bool
valid_action a =
    str_eq a action_open_long
    || str_eq a action_open_short
    || str_eq a action_close_long
    || str_eq a action_close_short
    || str_eq a action_hold
    || str_eq a action_wait

-- The text in front of an end marker, or all of it.
abbrev pub until : Text → Text → Text
until end rest = elim (index rest end) [ none ↦ rest | some j ↦ take j rest ]

-- One round of the loop that takes `<reasoning>` blocks out; `none` is `break`.
unfoldable pub strip_once : Text → Option Text
strip_once body = elim (index body reasoning_tag) [
  | none ↦ none
  | some s ↦ elim (index body reasoning_end) [
    | none ↦ none
    | some e ↦ if ltb s e then some (take s body ++ drop (e + length reasoning_end) body) else none
  ]
]

-- The loop, with its rounds bounded by fuel.
unfoldable pub strip_loop : ℕ → Text → Text
strip_loop zero body = body
strip_loop (suc fuel) body = elim (strip_once body) [ none ↦ body | some b ↦ strip_loop fuel b ]

-- A round takes out text, so the text's length is fuel enough.
unfoldable pub strip_reasoning : Text → Text
strip_reasoning raw = strip_loop (length raw) raw

unfoldable pub extract_decision_body : Text → Text
extract_decision_body raw = elim (index raw decision_tag) [
  | some i ↦ until decision_end (drop (i + length decision_tag) raw)
  | none ↦ elim (index raw json_fence) [
    | some i ↦ until fence (drop (i + length json_fence) raw)
    | none ↦ strip_reasoning raw
  ]
]

-- What the replacer makes of one code point: every text that it looks for is a single one.
unfoldable pub half_width : ℕ → ℕ
half_width c =
    if c == 0xFF0C
    then b','
    else if c == 0xFF1A
    then b':'
    else if c == 0xFF1B
    then b';'
    else if c == 0xFF08
    then b'('
    else if c == 0xFF09
    then b')'
    else if c == 0xFF5B
    then b'{'
    else if c == 0xFF5D
    then b'}'
    else if c == 0xFF3B
    then b'['
    else if c == 0xFF3D
    then b']'
    else if c == 0x201C || c == 0x201D
    then b'"'
    else if c == 0x2018 || c == 0x2019
    then 39
    else if c == 0xFF5E
    then b'~'
    else c

abbrev pub fix_full_width : Text → Text
fix_full_width = map half_width

pub data ParseError : Type 0 where
  no_block invalid_json empty_array : ParseError
  invalid_action missing_symbol : ℕ → ParseError

pub data Parsed {ℓ} (A : Type ℓ) : Type ℓ where
  ok : A → Parsed A
  err : ParseError → Parsed A

-- `json.Unmarshal` into `[]DecisionAction` and into `DecisionAction`; `none` is an error.
pub record Json (F : Type 0) : Type 0 where
  pub array : Text → Option (List (DecisionAction F))
  pub object : Text → Option (DecisionAction F)

-- `strings.TrimSpace(s) == ""`
is_nil : Text → Bool
is_nil [] = true
is_nil (c ∷ s) = false

unfoldable pub is_blank : String → Bool
unfolding is_nil
is_blank s = is_nil (trim_space (codes s))

module _ {F : Type 0} where
  abbrev pub safe_wait : ⦃f : Float64 F⦄ → List (DecisionAction F)
  safe_wait ⦃f⦄ =
      record {
        action = action_wait;
        symbol = "";
        quantity = f.dec 0 0;
        leverage = f.dec 0 0;
        price = f.dec 0 0;
        stop_loss = f.dec 0 0;
        take_profit = f.dec 0 0;
        confidence = f.dec 50 0;
        reasoning = "";
        order_id = "";
        success = none;
        error = "";
      }
      ∷ []

  abbrev pub needs_symbol : DecisionAction F → Bool
  needs_symbol a =
      is_blank a.symbol && (not (str_eq a.action action_wait) && not (str_eq a.action action_hold))

  -- The loop over the actions, from index `i`.
  unfoldable pub check_actions : ℕ → List (DecisionAction F) → Option ParseError
  check_actions i [] = none
  check_actions i (a ∷ rest) =
      if not (valid_action a.action)
      then some (invalid_action i)
      else if needs_symbol a
      then some (missing_symbol i)
      else check_actions (suc i) rest

  -- An array, or else a single action, which becomes an array of one.
  abbrev pub array_or_single :
      Option (List (DecisionAction F))
      → Option (DecisionAction F)
      → Option (List (DecisionAction F))
  array_or_single (some l) o = some l
  array_or_single none (some a) = some (a ∷ [])
  array_or_single none none = none

  unfoldable pub decode : Json F → Text → Option (List (DecisionAction F))
  decode json body = array_or_single (json.array body) (json.object body)

  abbrev pub verdict :
      List (DecisionAction F) → Option ParseError → Parsed (List (DecisionAction F))
  verdict l none = ok l
  verdict l (some e) = err e

  abbrev pub checked : Option (List (DecisionAction F)) → Parsed (List (DecisionAction F))
  checked none = err invalid_json
  checked (some []) = err empty_array
  checked (some (a ∷ l)) = verdict (a ∷ l) (check_actions 0 (a ∷ l))

  -- From the body on: the repair of the punctuation, the decoding and the checks.
  unfoldable pub parse_body : Json F → Text → Parsed (List (DecisionAction F))
  parse_body json [] = err no_block
  parse_body json (c ∷ cs) = checked (decode json (trim_space (fix_full_width (c ∷ cs))))

  unfoldable pub parse_decision : Json F → Text → Parsed (List (DecisionAction F))
  parse_decision json raw = parse_body json (extract_decision_body raw)
