-- ===== src/Extension.antt =====
-- src/respondphp.c and the macros of include/common.h: the classes of the module, what MINIT does
-- with their entries, and the start and the end of a request. A class entry is a global pointer that
-- is NULL until the class is registered; a step through a pointer that is NULL is a fault, `none`.
pub mod Signatures
pub mod Methods
pub mod Interfaces
pub mod Classes
pub mod Startup
pub mod Conformity
pub mod Requests
use respondphp.Base.{
  ℕ, Option, none, some, List, [], ◌∷◌, ◌++◌, Bytes, Bool, true, false, if◌then◌else◌, ◌==◌,
}
use respondphp.Zend.{Zval}

-- What DECLARE_CLASS_ENTRY declares.
pub data ClassName : Type 0 where
  respond_event_loop respond_connector_pipe respond_connector_tcp : ClassName
  respond_server_http respond_server_tcp respond_server_udp respond_server_pipe : ClassName
  respond_server_routine respond_stream_connection : ClassName
  respond_event_event_emitter_interface respond_stream_server_interface : ClassName
  respond_stream_writable_stream_interface : ClassName
  respond_stream_readable_stream_interface respond_stream_connection_interface : ClassName
  respond_socket_connector_interface respond_async_promise_interface : ClassName
  respond_async_cancelable_promise respond_network_resolver respond_system_timer : ClassName
  respond_server_secure respond_stream_secure respond_connector_secure : ClassName

-- ZEND_ACC_PUBLIC and its like
pub data Flag : Type 0 where
  acc_public acc_private acc_static acc_abstract acc_final acc_ctor : Flag

-- IS_LONG and its like; an object by the name of its class
pub data ArgType : Type 0 where
  is_long is_string is_array is_bool is_callable : ArgType
  is_object : Bytes → ArgType

-- `zend_internal_arg_info` of an argument
pub record Argument : Type 0 where
  pub name : Bytes
  pub type : Option ArgType
  pub allow_null : Bool
  pub variadic : Bool

-- What ZEND_BEGIN_ARG_INFO and its like begin. No argument is passed by reference. Without a number
-- of required arguments (-1) all are.
pub record ArgInfo : Type 0 where
  pub required : Option ℕ
  pub returns : Option (ArgType × Bool)
  pub arguments : List Argument

-- `zend_function_entry`, without the C function
pub record Method : Type 0 where
  pub name : Bytes
  pub arg_info : Option ArgInfo
  pub flags : List Flag

abbrev pub class_id : ClassName → ℕ
class_id respond_event_loop = 0
class_id respond_connector_pipe = 1
class_id respond_connector_tcp = 2
class_id respond_server_http = 3
class_id respond_server_tcp = 4
class_id respond_server_udp = 5
class_id respond_server_pipe = 6
class_id respond_server_routine = 7
class_id respond_stream_connection = 8
class_id respond_event_event_emitter_interface = 9
class_id respond_stream_server_interface = 10
class_id respond_stream_writable_stream_interface = 11
class_id respond_stream_readable_stream_interface = 12
class_id respond_stream_connection_interface = 13
class_id respond_socket_connector_interface = 14
class_id respond_async_promise_interface = 15
class_id respond_async_cancelable_promise = 16
class_id respond_network_resolver = 17
class_id respond_system_timer = 18
class_id respond_server_secure = 19
class_id respond_stream_secure = 20
class_id respond_connector_secure = 21

abbrev pub same_class : ClassName → ClassName → Bool
same_class a b = class_id a == class_id b

-- `zend_object_handlers` of a class: a copy of the standard ones, with what is written over it.
pub record Handlers : Type 0 where
  pub offset_set : Bool
  pub clones : Bool
  pub frees_resource : Bool

-- `zend_class_entry`
pub record Entry : Type 0 where
  pub name : Bytes
  pub is_interface : Bool
  pub methods : List Method
  pub creates_resource : Bool
  pub interfaces : List ClassName
  pub constants : List (Bytes × Zval)
  pub properties : List (Bytes × List Flag)

-- The globals CLASS_ENTRY(name) and OBJECT_HANDLER(name) of every class
pub record Registry : Type 0 where
  pub entries : ClassName → Option Entry
  pub handlers : ClassName → Option Handlers

abbrev pub Step : Type 0
Step = Registry → Option Registry

abbrev pub no_classes : Registry
no_classes = record { entries = λ c. none; handlers = λ c. none }

abbrev pub set_entry : ClassName → Entry → Registry → Registry
set_entry c e r = record r { entries = λ d. if same_class d c then some e else r.entries d }

abbrev pub set_handlers : ClassName → Handlers → Registry → Registry
set_handlers c e r = record r { handlers = λ d. if same_class d c then some e else r.handlers d }

-- Statements one after the other, up to the first fault
unfoldable pub in_order : List Step → Step
in_order [] r = some r
in_order (f ∷ fs) r = elim (f r) [ none ↦ none | some r1 ↦ in_order fs r1 ]

-- A write through CLASS_ENTRY(name)
unfoldable pub with_entry : ClassName → (Entry → Entry) → Step
with_entry c f r = elim (r.entries c) [ none ↦ none | some e ↦ some (set_entry c (f e) r) ]

-- A write to OBJECT_HANDLER(name), after its copy was made
unfoldable pub with_handlers : ClassName → (Handlers → Handlers) → Step
with_handlers c f r = elim (r.handlers c) [ none ↦ none | some e ↦ some (set_handlers c (f e) r) ]

abbrev pub new_entry : Bytes → Bool → List Method → Entry
new_entry name is_interface methods = record {
  name = name;
  is_interface = is_interface;
  methods = methods;
  creates_resource = false;
  interfaces = [];
  constants = [];
  properties = [];
}

-- REGISTER_CLASS: INIT_CLASS_ENTRY and REGISTER_INTERNAL_CLASS
unfoldable pub register_class : ClassName → Bytes → List Method → Step
register_class c name methods r = some (set_entry c (new_entry name false methods) r)

-- INIT_CLASS and REGISTER_INTERNAL_INTERFACE
unfoldable pub register_interface : ClassName → Bytes → List Method → Step
register_interface c name methods r = some (set_entry c (new_entry name true methods) r)

-- REGISTER_CLASS_WITH_OBJECT_NEW
unfoldable pub register_class_with_object_new : ClassName → Bytes → List Method → Step
unfolding in_order register_class with_entry
register_class_with_object_new c name methods = in_order (
    (λ r.
      some
        (set_handlers c (record { offset_set = false; clones = true; frees_resource = false }) r))
    ∷ register_class c name methods
    ∷ with_entry c (λ e. record e { creates_resource = true })
    ∷ [])

-- The three writes that follow it in each class
unfoldable pub own_handlers : ClassName → Step
unfolding in_order with_handlers
own_handlers c = in_order (
    with_handlers c (λ e. record e { offset_set = true })
    ∷ with_handlers c (λ e. record e { clones = false })
    ∷ with_handlers c (λ e. record e { frees_resource = true })
    ∷ [])

abbrev pub all_registered : List ClassName → Registry → Bool
all_registered [] r = true
all_registered (c ∷ cs) r = elim (r.entries c) [ none ↦ false | some e ↦ all_registered cs r ]

-- zend_class_implements, whose arguments are class entries
unfoldable pub class_implements : ClassName → List ClassName → Step
unfolding with_entry
class_implements c interfaces r = elim (all_registered interfaces r) [
  | false ↦ none
  | true ↦ with_entry c (λ e. record e { interfaces = e.interfaces ++ interfaces }) r
]

-- REGISTER_CLASS_CONSTANT_LONG and REGISTER_CLASS_CONSTANT_STRING
unfoldable pub class_constant : ClassName → Bytes → Zval → Step
unfolding with_entry
class_constant c name value =
    with_entry c (λ e. record e { constants = e.constants ++ (name, value) ∷ [] })

-- zend_declare_property_null
unfoldable pub declare_property_null : ClassName → Bytes → List Flag → Step
unfolding with_entry
declare_property_null c name flags =
    with_entry c (λ e. record e { properties = e.properties ++ (name, flags) ∷ [] })
