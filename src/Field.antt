-- ===== src/Field.antt =====
-- The calls of k8s.io/apimachinery's field package: a path is the names that it is built from, and
-- an error the arguments of the call that makes it.
use cert_manager_approver_po.Common.{String, Bool, List, ℤ}

abbrev pub FieldPath : Type 0
FieldPath = List String

pub data BadValue : Type 0 where
  text : String → BadValue
  texts : List String → BadValue
  flag : Bool → BadValue
  number : ℤ → BadValue
  entries : List (String × String) → BadValue

pub data FieldError : Type 0 where
  invalid : FieldPath → BadValue → String → FieldError
  required : FieldPath → String → FieldError
  not_supported : FieldPath → BadValue → List String → FieldError

abbrev pub ErrorList : Type 0
ErrorList = List FieldError
