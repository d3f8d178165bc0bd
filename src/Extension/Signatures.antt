-- ===== src/Extension/Signatures.antt =====
-- The argument information of the methods: the macros of the Zend engine that declare arguments.
pub mod Interfaces
pub mod Classes
use respondphp.Base.{none, some, Bool, true, false, codes}
use Prim.Native.String.{String}
use respondphp.Extension.{ArgType, Argument}

-- ZEND_ARG_INFO
abbrev pub untyped_arg : String → Argument
untyped_arg name = record { name = codes name; type = none; allow_null = false; variadic = false }

-- ZEND_ARG_TYPE_INFO, ZEND_ARG_CALLABLE_INFO and ZEND_ARG_OBJ_INFO
abbrev pub typed_arg : String → ArgType → Bool → Argument
typed_arg name type allow_null = record {
  name = codes name;
  type = some type;
  allow_null = allow_null;
  variadic = false;
}

-- ZEND_ARG_VARIADIC_INFO
abbrev pub variadic_arg : String → Argument
variadic_arg name = record { name = codes name; type = none; allow_null = false; variadic = true }
