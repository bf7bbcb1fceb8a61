-- ===== src/Tests/Answers.antt =====
-- A model's answer with an object in it, and the theorem of planner/json_tools.py applied to it.
use pgloom_engineering.Base.{ℕ, ◌≡◌, refl, List, [], ◌∷◌, ◌++◌}
use pgloom_engineering.Base.Codes.{codes}
use pgloom_engineering.Planner.Spans.{balanced_json_spans}
use pgloom_engineering.Planner.Spans.Balanced.{
  Quoted, closed, letter, escape, Body, ended, plain, literal, nested, balanced_json_spans-object,
}

abbrev answer_text : List ℕ
answer_text = codes "see {\"a\": \"\\\"}\", \"b\": {}} end {}"

abbrev object_body : List ℕ
object_body = codes "\"a\": \"\\\"}\", \"b\": {}"

abbrev text_before : List ℕ
text_before = codes "see "

abbrev text_after : List ℕ
text_after = codes " end {}"

two_spans : balanced_json_spans answer_text ≡ (b'{' ∷ object_body ++ b'}' ∷ []) ∷ codes "{}" ∷ []
unfolding balanced_json_spans
two_spans = refl

brace_literal : Quoted (codes "\\\"}")
brace_literal = escape b'"' (codes "}") (letter b'}' [] refl refl closed)

-- The text between the braces: two keys, a string literal that holds a quote and a brace, and an
-- empty object.
object_body-Body : Body object_body
object_body-Body = literal (codes "a") _ (letter b'a' [] refl refl closed) (
    plain b':' _ refl refl refl (
      plain b' ' _ refl refl refl (
        literal (codes "\\\"}") _ brace_literal (
          plain b',' _ refl refl refl (
            plain b' ' _ refl refl refl (
              literal (codes "b") _ (letter b'b' [] refl refl closed) (
                plain b':' _ refl refl refl
                  (plain b' ' _ refl refl refl (nested [] [] ended ended)))))))))

balanced_json_spans-object_example :
    balanced_json_spans answer_text
    ≡ (b'{' ∷ object_body ++ b'}' ∷ []) ∷ balanced_json_spans text_after
balanced_json_spans-object_example =
    balanced_json_spans-object text_before object_body text_after (refl, (refl, (refl, (refl, tt))))
      object_body-Body
