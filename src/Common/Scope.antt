-- ===== src/Common/Scope.antt =====
-- pkg/common/scope.go: the scope of a request, with the calls that it makes of its span and its
-- logger. Starting a span is the work of the tracing library, a parameter.
use extend_game_telemetry_co.Prelude.{Bool, List, [], ◌∷◌, ◌++◌, Text, codes, ℤ}
use extend_game_telemetry_co.Events.{Float64}

-- The values that `SetAttributes` tells apart; any other has a type with a name.
pub data Value : Type 0 where
  bool : Bool → Value
  string : Text → Value
  int int64 : ℤ → Value
  float64 : Float64 → Value
  bools : List Bool → Value
  strings : List Text → Value
  ints int64s : List ℤ → Value
  float64s : List Float64 → Value
  other : Text → Value

-- `attribute.KeyValue`: integers of both types are one type of attribute.
pub data Attribute : Type 0 where
  bool_attribute : Bool → Attribute
  string_attribute : Text → Attribute
  int64_attribute : ℤ → Attribute
  float64_attribute : Float64 → Attribute
  bool_slice : List Bool → Attribute
  string_slice : List Text → Attribute
  int64_slice : List ℤ → Attribute
  float64_slice : List Float64 → Attribute

pub data SpanCall : Type 0 where
  set_attribute : Text → Attribute → SpanCall
  add_event record_error set_error_status : Text → SpanCall
  end : SpanCall

-- A started span: its context, its identifiers, and its calls, oldest first.
pub record Span (C : Type 0) : Type 0 where
  pub ctx : C
  pub trace_id : Text
  pub span_id : Text
  pub calls : List SpanCall

-- `Scope`; `log_fields` are those of its log entry, `logged` the errors that it wrote.
pub record Scope (C : Type 0) : Type 0 where
  pub ctx : C
  pub trace_id : Text
  pub span : Span C
  pub log_fields : List (Text × Text)
  pub logged : List Text

with_trace_id : Text → List (Text × Text)
with_trace_id trace_id = (codes "traceID", trace_id) ∷ []

module _ {C : Type 0} where
  -- `tracer.Start`, with the context and the name of the span.
  module _ (start : C → Text → Span C) where
    pub child_scope_from_remote_scope : C → Text → Scope C
    unfolding with_trace_id
    child_scope_from_remote_scope ctx name =
        let span = start ctx name in
        record {
          ctx = span.ctx;
          trace_id = span.trace_id;
          span = span;
          log_fields = with_trace_id span.trace_id;
          logged = [];
        }

    pub get_scope_from_context : C → Text → Scope C
    unfolding child_scope_from_remote_scope
    get_scope_from_context ctx name = child_scope_from_remote_scope ctx name

    -- The trace id is that of the parent.
    pub new_child_scope : Scope C → Text → Scope C
    new_child_scope s name =
        let span = start s.ctx name in
        record {
          ctx = span.ctx;
          trace_id = s.trace_id;
          span = span;
          log_fields = s.log_fields;
          logged = s.logged;
        }

  -- A call of the span.
  call : SpanCall → Scope C → Scope C
  call c s = record s { span = record s.span { calls = s.span.calls ++ c ∷ [] } }

  -- `SetLogger`, which does not use the logger that it is given.
  pub set_logger : Scope C → List (Text × Text) → Scope C
  unfolding with_trace_id
  set_logger s logger = record s { log_fields = with_trace_id s.trace_id }

  pub finish : Scope C → Scope C
  unfolding call
  finish s = call end s

  pub trace_event : Scope C → Text → Scope C
  unfolding call
  trace_event s event_message = call (add_event event_message) s

  -- An error is its text.
  pub trace_error : Scope C → Text → Scope C
  unfolding call
  trace_error s err = call (set_error_status err) (call (record_error err) s)

  pub add_baggage : Scope C → Text → Text → Scope C
  unfolding call
  add_baggage s key value = call (set_attribute key (string_attribute value)) s

  pub trace_tag : Scope C → Text → Text → Scope C
  unfolding add_baggage
  trace_tag s key value = add_baggage s key value

  pub set_attributes : Scope C → Text → Value → Scope C
  unfolding call
  set_attributes s key (bool v) = call (set_attribute key (bool_attribute v)) s
  set_attributes s key (string v) = call (set_attribute key (string_attribute v)) s
  set_attributes s key (int v) = call (set_attribute key (int64_attribute v)) s
  set_attributes s key (int64 v) = call (set_attribute key (int64_attribute v)) s
  set_attributes s key (float64 v) = call (set_attribute key (float64_attribute v)) s
  set_attributes s key (bools v) = call (set_attribute key (bool_slice v)) s
  set_attributes s key (strings v) = call (set_attribute key (string_slice v)) s
  set_attributes s key (ints v) = call (set_attribute key (int64_slice v)) s
  set_attributes s key (int64s v) = call (set_attribute key (int64_slice v)) s
  set_attributes s key (float64s v) = call (set_attribute key (float64_slice v)) s
  set_attributes s key (other type) = record s {
    logged = s.logged ++ (codes "could not set a span attribute of type " ++ type) ∷ [];
  }

  pub get_span_context_string : Scope C → Text
  get_span_context_string s = s.span.span_id
