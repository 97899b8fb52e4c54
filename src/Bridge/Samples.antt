-- ===== src/Bridge/Samples.antt =====
-- A process that prints two frames, written as short names that the parser knows.
use downshift.Base.{ℕ, true, false, none, some, [], ◌∷◌, ok, leb, ◌==◌, if◌then◌else◌, str_eq, suc}
use downshift.Bridge.{Platform}
use downshift.Bridge.Values.{Json, number, text, array, object, nil, cons, Fields, end, field}
use downshift.Bridge.Messages.{ModelResponse, response, ResolveOptions}
use downshift.Bridge.Client.{line, abort, Pipe, Client}

abbrev message : Json ℕ
message = object (
    field "role" (text "user") (
      field "content"
        (array
          (cons (object (field "type" (text "text") (field "text" (text "Rename f.") end))) nil))
        end))

abbrev request : Fields ℕ
request = field "messages" (array (cons message nil)) end

abbrev pub call_line : Json ℕ
call_line = object (
    field "type" (text "call_model") (
      field "decisionId" (text "d1") (
        field "callId" (text "c1")
          (field "targetAlias" (text "classifier") (field "request" (object request) end)))))

abbrev pub decision_line : Json ℕ
decision_line = object (
    field "type" (text "decision") (
      field "decisionId" (text "d1") (
        field "selectedAlias" (text "weak") (
          field "evidence"
            (object (
              field "kind" (text "validated_verdict")
                (field "weakSolveProbability" (number 1) end)))
            end))))

-- Numbers are natural numbers, and a short line is a name of a frame.
abbrev pub platform : Platform ℕ
platform = record {
  byte_length = λ s. 100;
  json_parse = λ s.
      if str_eq s "call"
      then some call_line
      else if str_eq s "decide"
      then some decision_line
      else none;
  is_finite = λ n. true;
  is_safe_integer = λ n. true;
  le = leb;
  zero_f = 0;
  one_f = 1;
  same = λ a b. a == b;
}

abbrev pub pipe : Pipe ℕ
pipe = record { size = λ frame. 10; room = λ written. true }

abbrev pub answered : ModelResponse
answered = record {
  text = "0.9";
  usage = none;
  provider = some "acme";
  model = some "judge";
  provider_reported_model_id = none;
}

-- The callback's state counts its calls.
abbrev pub options : ResolveOptions ℕ ℕ
options = record {
  decision_id = "d1";
  task = "Rename f.";
  weak_threshold = 1;
  weak_capability_description = none;
  max_output_tokens = 100;
  is_aborted = false;
  call_classifier = λ c m. (suc c, ok (response answered));
}

abbrev pub client : Client ℕ
client = record {
  closed = false;
  active = false;
  inputs = line "call" ∷ abort ∷ line "decide" ∷ line "call" ∷ [];
  written = [];
}
