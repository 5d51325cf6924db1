-- ===== src/TaskQueue/Inspect.antt =====
-- task_queue/inspect.go: which functions may be registered for a queue.
use newrr.Common.{
  Bool, true, false, not, ◌&&◌, ◌==◌, List, [], ◌∷◌, Option, none, some, Result, ok, err, external,
  Text, text, text_eq, leb, split_by, ◌++◌, ◌>>◌, if◌then◌else◌,
}

pub data Kind : Type 0 where
  func interface struct ptr : Kind
  other_kind : Text → Kind

abbrev pub kind_name : Kind → Text
kind_name func = text "func"
kind_name interface = text "interface"
kind_name struct = text "struct"
kind_name ptr = text "ptr"
kind_name (other_kind s) = s

abbrev pub is_kind : Kind → Kind → Bool
is_kind k j = text_eq (kind_name k) (kind_name j)

-- What reflection tells of a type: a field is its name and its json tag.
pub record TypeInfo : Type 0 where
  pub kind : Kind
  pub name : Text
  pub fields : List (Text × Text)

-- What reflection tells of a value that is to be registered, where it is not nil.
pub record FunctionValue : Type 0 where
  pub kind : Kind
  pub name : Text
  pub outs : List TypeInfo
  pub ins : List TypeInfo

-- functionMetadata, less the function itself
pub record FunctionMetadata : Type 0 where
  pub function_name : Text
  pub argument_type_name : Text

-- `if test { return metadata, errors.New(message) }`
abbrev pub reject : Bool → Text → Result (Unit {0})
reject true message = err (external message)
reject false message = ok tt

abbrev pub is_nil : Option FunctionValue → Bool
is_nil none = true
is_nil (some f) = false

abbrev pub return_types : List TypeInfo → Text
return_types [] = []
return_types (t ∷ []) = t.name
return_types (t ∷ u ∷ ts) = t.name ++ text ", " ++ return_types (u ∷ ts)

abbrev pub is_error : List TypeInfo → Bool
is_error (t ∷ []) = is_kind t.kind interface && text_eq t.name (text "error")
is_error _ = false

-- The first field without a json tag.
abbrev pub check_tags : Text → List (Text × Text) → Result (Unit {0})
check_tags type_name [] = ok tt
check_tags type_name ((field, tag) ∷ fields) =
    let rest = check_tags type_name fields in
    if text_eq tag []
    then err (
        external (
          text "field " ++ field ++ text " of struct " ++ type_name ++ text " is missing json tag"))
    else rest

-- isFunctionExported and isArgumentTypeExported, whose bodies are the same: the index 0 of the last
-- part of the name panics (none) where that part is empty.
abbrev pub starts_upper : Text → Option Bool
starts_upper [] = none
starts_upper (c ∷ s) = some (leb b'A' c && leb c b'Z')

abbrev pub last_part : List Text → Option Bool
last_part [] = some false
last_part (w ∷ []) = starts_upper w
last_part (w ∷ v ∷ ws) = last_part (v ∷ ws)

unfoldable pub is_function_exported : Text → Option Bool
unfolding split_by
is_function_exported name = last_part (split_by (λ c. c == b'.') name)

unfoldable pub is_argument_type_exported : Text → Option Bool
unfolding split_by
is_argument_type_exported name = last_part (split_by (λ c. c == b'.') name)

-- The checks in sequence; none is a panic.
abbrev pub passing :
    Result (Unit {0}) → Option (Result FunctionMetadata) → Option (Result FunctionMetadata)
passing (err e) rest = some (err e)
passing (ok _) rest = rest

abbrev pub if_exported :
    Option Bool → Text → Option (Result FunctionMetadata) → Option (Result FunctionMetadata)
if_exported none message rest = none
if_exported (some false) message rest = some (err (external message))
if_exported (some true) message rest = rest

-- The checks on the three arguments.
abbrev pub inspect_arguments : Text → List TypeInfo → Option (Result FunctionMetadata)
inspect_arguments name (argument ∷ context ∷ cancel ∷ []) =
    passing
      (reject (is_kind argument.kind ptr)
          (text "function argument must be a value and not a pointer")
        >> reject (not (is_kind context.kind interface && text_eq context.name (text "Context")))
            (text "function 2nd argument must be a context")
        >> reject (not (is_kind cancel.kind func && text_eq cancel.name (text "CancelFunc")))
            (text "function 3rd argument must be a cancel function")
        >> reject (not (is_kind argument.kind struct)) (
            text "function argument must be a struct, found "
            ++ kind_name argument.kind
            ++ text " instead"))
      (if_exported (is_argument_type_exported argument.name)
        (text "argument type `"
          ++ argument.name
          ++ text
              "` is not exported. Your argument type should start with a capital letter to be exported")
        (passing (check_tags argument.name argument.fields)
          (some (ok (record { function_name = name; argument_type_name = argument.name })))))
inspect_arguments name _ = some (
    err (
      external (
        text
          "function must have only one custom argument and a context and cancel context function")))

abbrev pub inspect_value : FunctionValue → Option (Result FunctionMetadata)
inspect_value f =
    passing
      (reject (not (is_kind f.kind func))
        (text "function is not type of func. Found " ++ kind_name f.kind ++ text " instead"))
      (if_exported (is_function_exported f.name)
        (text "function `"
          ++ f.name
          ++ text
              "` is not exported. Your function name should start with a capital letter to be exported")
        (passing
          (reject (not (is_error f.outs)) (
            text "function must return only one error. Found (" ++ return_types f.outs ++ text ")"))
          (inspect_arguments f.name f.ins)))

-- inspectFunction
unfoldable pub inspect_function : Option FunctionValue → Option (Result FunctionMetadata)
unfolding is_function_exported is_argument_type_exported
inspect_function none = some (err (external (text "function is nil")))
inspect_function (some f) = inspect_value f
