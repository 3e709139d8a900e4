-- ===== src/Kernel/Tests.antt =====
-- Runs of the parser, the checks and the indicators, and the theorems about them at concrete inputs.
use fxcore.Prelude.{none, some, [], ◌∷◌, ◌++◌, All, ◌≡◌, ◌≢◌, ◌↔◌, refl, arith}
use fxcore.Prelude.Int.{pos}
use fxcore.Prelude.Float.{Fixed, fixed_float}
use fxcore.Prelude.Text.{Text, codes, index, trim_space, trim_left}
use fxcore.Model.Decision.{DecisionAction}
use fxcore.Kernel.Parse
use fxcore.Kernel.Parse.{Json, Parsed, ok, decision_tag, decision_end, reasoning_tag, reasoning_end}
use fxcore.Kernel.Parse.Accepted.{Decodes, IsUsable, accepted_iff}
use fxcore.Kernel.Parse.Marked.{parse-tagged}
use fxcore.Kernel.Parse.Strip.{strip_total}

abbrev waiting : DecisionAction Fixed
waiting = record {
  action = "wait";
  symbol = "";
  quantity = pos 0;
  leverage = pos 0;
  price = pos 0;
  stop_loss = pos 0;
  take_profit = pos 0;
  confidence = pos 500_000;
  reasoning = "";
  order_id = "";
  success = none;
  error = "";
}

-- A decoder that knows one text.
abbrev one_text : Json Fixed
one_text = record { array = λ t. none; object = λ t. elim t [ [] ↦ none | c ∷ s ↦ some waiting ] }

abbrev answer : Text
answer = codes "so: <decision>{}</decision>."

parse_test : Parse.parse_decision one_text answer ≡ ok (waiting ∷ [])
unfolding Parse.parse_decision Parse.extract_decision_body index Parse.parse_body Parse.decode
    Parse.half_width Parse.check_actions Parse.is_blank trim_left
parse_test = refl

accepted_iff_example : (Parse.parse_decision one_text answer ≡ ok (waiting ∷ [])) ↔ (
    (Parse.extract_decision_body answer ≢ [])
    × Decodes one_text
        (trim_space (Parse.fix_full_width (Parse.extract_decision_body answer)))
        (waiting ∷ [])
    × (waiting ∷ [] ≢ [])
    × All IsUsable (waiting ∷ []))
accepted_iff_example = accepted_iff one_text answer (waiting ∷ [])

parse-tagged_example :
    Parse.parse_decision one_text (
      codes "<reasoning>"
      ++ (decision_tag ++ (codes "{}" ++ (decision_end ++ codes "</reasoning>"))))
    ≡ Parse.parse_body one_text (codes "{}")
parse-tagged_example =
    parse-tagged one_text (codes "<reasoning>") (codes "{}") (codes "</reasoning>")
      (unfold index in refl) (unfold index in refl)

abbrev thought : Text
thought = codes "a<reasoning>b</reasoning>c"

strip_total_example :
    (Parse.strip_loop 40 thought ≡ Parse.strip_reasoning thought)
    × (Parse.strip_once (Parse.strip_reasoning thought) ≡ none)
strip_total_example = strip_total 40 thought (omega arith)

strip_test : Parse.strip_reasoning thought ≡ codes "ac"
unfolding Parse.strip_reasoning Parse.strip_loop Parse.strip_once index
strip_test = refl
