-- ===== src/Extension/Conformity.antt =====
-- The classes of src/respondphp.c against the interfaces that they are declared to implement.
pub mod Lists
pub mod Calls
pub mod Tests
pub mod Started
use respondphp.Base.{
  length, ◌≤◌, ◌⊎◌, ℕ, ◌≡◌, ◌≢◌, refl, sym, ap, subst, ◌∙◌, Option, none, some, List, [], ◌∷◌, ◌++◌,
  Bool, true, false, not, ◌&&◌, ◌||◌, get_elem?, Bytes, arith, Bool-cases, inl, inr, if◌then◌else◌,
}
use respondphp.Extension.{
  respond_event_loop, respond_connector_pipe, respond_connector_tcp, respond_server_http,
  respond_server_tcp, respond_server_udp, respond_server_pipe, respond_server_routine,
  respond_stream_connection, respond_event_event_emitter_interface, respond_stream_server_interface,
  respond_stream_writable_stream_interface, respond_stream_readable_stream_interface,
  respond_stream_connection_interface, respond_socket_connector_interface,
  respond_async_promise_interface, respond_async_cancelable_promise, respond_network_resolver,
  respond_system_timer, respond_server_secure, respond_stream_secure, respond_connector_secure,
  ClassName, class_id, same_class, Registry, Entry, Method, ArgInfo, Argument, Flag, acc_public,
  acc_static, acc_abstract, no_classes,
}
use respondphp.Extension.Startup.{minit}
use respondphp.Extension.Conformity.Lists.{
  all, any, all-get, any-get, same_bytes, same_bytes_lem, has_flag,
}

-- The registry after MINIT.
unfoldable pub started : Bool → Registry
unfolding minit
started openssl = elim (minit openssl no_classes) [ none ↦ no_classes | some r ↦ r ]

abbrev pub interfaces_of : Registry → ClassName → List ClassName
interfaces_of r c = elim (r.entries c) [ none ↦ [] | some e ↦ e.interfaces ]

abbrev pub methods_of : Registry → ClassName → List Method
methods_of r c = elim (r.entries c) [ none ↦ [] | some e ↦ e.methods ]

abbrev pub is_class : Registry → ClassName → Bool
is_class r c = elim (r.entries c) [ none ↦ false | some e ↦ not e.is_interface ]

-- The interfaces of a class: those that it is declared to implement, and those of an interface.
pub data Implements (r : Registry) (c : ClassName) : ClassName → Type 0 where
  direct : (k : ℕ) (i : ClassName) → get_elem? (interfaces_of r c) k ≡ some i → Implements r c i
  inherits :
      {j : ClassName}
      → Implements r c j
      → (k : ℕ) (i : ClassName) → get_elem? (interfaces_of r j) k ≡ some i
      → Implements r c i

-- ARGINFO of NULL: no arguments, and nothing is said of the result.
abbrev pub declared : Option ArgInfo → ArgInfo
declared none = record { required = none; returns = none; arguments = [] }
declared (some i) = i

abbrev pub required_num : ArgInfo → ℕ
required_num i = elim i.required [ none ↦ length i.arguments | some n ↦ n ]

-- A signature that can be called as `wanted` says: it takes each argument that `wanted` takes, as
-- what that takes it, requires no more, and gives what that gives.
abbrev pub Accepts : ArgInfo → ArgInfo → Type 0
Accepts own wanted =
    (required_num own ≤ required_num wanted)
    × ((wanted.returns ≡ none) ⊎ (own.returns ≡ wanted.returns))
    × ((k : ℕ) (a : Argument)
        → get_elem? wanted.arguments k ≡ some a
        → (b : Argument) × (get_elem? own.arguments k ≡ some b)
          × (b.type ≡ a.type)
          × (b.allow_null ≡ a.allow_null)
          × (b.variadic ≡ a.variadic))

-- A method that PHP accepts for the abstract one: of its name, not abstract, static if it is static,
-- public if it is public, and of a signature that can be called in its place.
pub record Fits (own wanted : Method) : Type 0 where
  pub named : own.name ≡ wanted.name
  pub concrete : has_flag acc_abstract own.flags ≡ false
  pub static : has_flag acc_static own.flags ≡ has_flag acc_static wanted.flags
  pub visible : has_flag acc_public wanted.flags ≡ true → has_flag acc_public own.flags ≡ true
  pub callable : Accepts (declared own.arg_info) (declared wanted.arg_info)

abbrev pub Conforms : Registry → ClassName → Type 0
Conforms r c =
    (i : ClassName) (k : ℕ) (wanted : Method)
    → Implements r c i
    → get_elem? (methods_of r i) k ≡ some wanted
    → (n : ℕ) × (own : Method) × (get_elem? (methods_of r c) n ≡ some own) × Fits own wanted
