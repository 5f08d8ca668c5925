-- ===== src/Protobuf/Flatten.antt =====
-- internal/protobuf/messages.go: `flattenMessage`.
use go_ecoflow_exporter.Base.{Text, dot, Bool, true, false, [], ◌∷◌, ◌++◌, if◌then◌else◌}
use go_ecoflow_exporter.Base.Int.{pos}
use go_ecoflow_exporter.Base.Dict.{Dict, insert}
use go_ecoflow_exporter.Update.{Floats, Any, float64, string}
use go_ecoflow_exporter.Protobuf.Message.{
  FieldValue, Fields, list_or_map, nested, bool_kind, float_kind, int_kind, uint_kind, enum_kind,
  string_kind, bytes_kind, done, field,
}

module _ {F64 F32 : Type 0} (fl : Floats F64 F32) where
  -- A number or bool becomes a float64, a text stays one; lists, maps and bytes are skipped. The
  -- names inside a nested message go behind its own name, unless `inline_nested` is set, which holds
  -- for one level.
  unfoldable mutual
    pub flatten_message : Fields F64 → Text → Bool → Dict (Any F64 F32) → Dict (Any F64 F32)
    flatten_message done prefix inline_nested out = out
    flatten_message (field name v rest) prefix inline_nested out =
        flatten_message rest prefix inline_nested (flatten_value v prefix name inline_nested out)

    pub flatten_value :
        FieldValue F64 → Text → Text → Bool → Dict (Any F64 F32) → Dict (Any F64 F32)
    flatten_value list_or_map prefix name inline_nested out = out
    flatten_value (nested m) prefix name inline_nested out =
        flatten_message m (if inline_nested then prefix else (prefix ++ name) ++ dot ∷ []) false out
    flatten_value (bool_kind true) prefix name inline_nested out =
        insert (prefix ++ name) (float64 (fl.of_int (pos 1))) out
    flatten_value (bool_kind false) prefix name inline_nested out =
        insert (prefix ++ name) (float64 (fl.of_int (pos 0))) out
    flatten_value (float_kind f) prefix name inline_nested out =
        insert (prefix ++ name) (float64 f) out
    flatten_value (int_kind i) prefix name inline_nested out =
        insert (prefix ++ name) (float64 (fl.of_int i)) out
    flatten_value (uint_kind n) prefix name inline_nested out =
        insert (prefix ++ name) (float64 (fl.of_int (pos n))) out
    flatten_value (enum_kind i) prefix name inline_nested out =
        insert (prefix ++ name) (float64 (fl.of_int i)) out
    flatten_value (string_kind s) prefix name inline_nested out =
        insert (prefix ++ name) (string s) out
    flatten_value (bytes_kind b) prefix name inline_nested out = out
