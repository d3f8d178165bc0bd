-- ===== src/Extension/Conformity/Started.antt =====
-- src/respondphp.c: what holds of the classes once the module is started.
use respondphp.Base.{
  ◌≡◌, ◌≢◌, ◌↔◌, refl, subst, none, some, [], ◌∷◌, Bool, true, false, not, ◌&&◌, ◌||◌, get_elem?,
}
use respondphp.Extension.{
  ClassName, respond_system_timer, respond_socket_connector_interface, respond_connector_secure,
  respond_server_secure, respond_stream_secure, same_class, Registry, Method, acc_public,
  acc_abstract, acc_static, no_classes,
}
use respondphp.Extension.Startup.{minit}
use respondphp.Extension.Methods.{method}
use respondphp.Extension.Signatures.Interfaces.{socket_connector_interface_connect}
use respondphp.Extension.Conformity.Lists.{all, all-get, same_bytes, same_bool, same_bool_lem}
use respondphp.Extension.Conformity.{started, interfaces_of, methods_of, is_class, direct, Conforms}
use respondphp.Extension.Conformity.Tests.{
  all_classes, every_class, conforms, conforms-Conforms, same_class_lem,
}

abbrev pub needs_openssl : ClassName → Bool
needs_openssl respond_connector_secure = true
needs_openssl respond_server_secure = true
needs_openssl respond_stream_secure = true
needs_openssl _ = false

abbrev pub is_registered : Registry → ClassName → Bool
is_registered r c = elim (r.entries c) [ none ↦ false | some e ↦ true ]

-- Handlers of their own have all three entries, and the class makes its resource.
abbrev pub has_handlers : Registry → ClassName → Bool
has_handlers r c = elim (r.entries c) [
  | none ↦ true
  | some e ↦ elim (r.handlers c) [
    | none ↦ not e.creates_resource
    | some g ↦ e.creates_resource && (g.offset_set && (not g.clones && g.frees_resource))
  ]
]

minit_runs : (openssl : Bool) → minit openssl no_classes ≡ some (started openssl)
unfolding started minit
minit_runs true = refl
minit_runs false = refl

registered_all :
    (openssl : Bool)
    → all
        (λ c. same_bool (is_registered (started openssl) c) (openssl || not (needs_openssl c)))
        all_classes
      ≡ true
unfolding started minit
registered_all true = refl
registered_all false = refl

handlers_all : (openssl : Bool) → all (has_handlers (started openssl)) all_classes ≡ true
unfolding started minit
handlers_all true = refl
handlers_all false = refl

conforming : Bool → ClassName → Bool
conforming openssl c =
    not (is_class (started openssl) c && not (same_class c respond_system_timer))
    || conforms (started openssl) c

conforming-all : (openssl : Bool) → all (conforming openssl) all_classes ≡ true
unfolding conforming started minit
conforming-all true = refl
conforming-all false = refl

-- Timer has no `connect`.
timer-connect_method :
    (openssl : Bool)
    → get_elem? (interfaces_of (started openssl) respond_system_timer) 0
      ≡ some respond_socket_connector_interface
unfolding started minit
timer-connect_method true = refl
timer-connect_method false = refl

abbrev connect_method : Method
connect_method =
    method "connect" (some socket_connector_interface_connect)
      (acc_public ∷ acc_abstract ∷ acc_static ∷ [])

wanted_connect :
    (openssl : Bool)
    → get_elem? (methods_of (started openssl) respond_socket_connector_interface) 1
      ≡ some connect_method
unfolding started minit
wanted_connect true = refl
wanted_connect false = refl

no_connect :
    (openssl : Bool)
    → all
        (λ o. not (same_bytes o.name connect_method.name))
        (methods_of (started openssl) respond_system_timer)
      ≡ true
unfolding started minit
no_connect true = refl
no_connect false = refl

timer_lem : (openssl : Bool) → ¬ Conforms (started openssl) respond_system_timer
timer_lem openssl g =
    let (n, own, at_n, fit) =
      g respond_socket_connector_interface 1 connect_method
        (direct 0 respond_socket_connector_interface (timer-connect_method openssl))
        (wanted_connect openssl) in
    let other : not (same_bytes own.name connect_method.name) ≡ true =
      all-get (λ o. not (same_bytes o.name connect_method.name)) _ n (no_connect openssl) at_n in
    let wrong : false ≡ true = rw fit.named at other in cc

-- MINIT, in either build, meets no class entry that is not registered yet. It registers every class
-- and interface, those of TLS only with OpenSSL; and a class has handlers of its own, complete,
-- exactly if it makes a resource.
pub minit-registers :
    (openssl : Bool) (c : ClassName)
    → (minit openssl no_classes ≡ some (started openssl))
      × (is_registered (started openssl) c ≡ (openssl || not (needs_openssl c)))
      × (has_handlers (started openssl) c ≡ true)
minit-registers openssl c = (
  minit_runs openssl,
  same_bool_lem _ _ (
      every_class
        (λ d. same_bool (is_registered (started openssl) d) (openssl || not (needs_openssl d)))
        (registered_all openssl) c),
  every_class (has_handlers (started openssl)) (handlers_all openssl) c,
)

conforming_lem :
    (openssl : Bool) (c : ClassName)
    → is_class (started openssl) c ≡ true
    → c ≢ respond_system_timer
    → Conforms (started openssl) c
unfolding conforming
conforming_lem openssl c is other = conforms-Conforms (started openssl) c (
    left (is_class (started openssl) c) (same_class c respond_system_timer) is
      (same_class_lem c respond_system_timer)
      (every_class (conforming openssl) (conforming-all openssl) c))
  where
    left :
        (a b : Bool)
        → a ≡ true
        → (b ≡ true → c ≡ respond_system_timer)
        → (not (a && not b) || conforms (started openssl) c) ≡ true
        → conforms (started openssl) c ≡ true
    left true true it same h = absurd (other (same refl))
    left true false it same h = h
    left false b it same h = cc

-- Once the module is started, a class has a method for each method of each interface that it is
-- declared to implement, the interfaces of interfaces included, of the same name, not abstract,
-- static if that is static, public if that is public, and of a signature that can be called as that
-- one says, exactly if it is not Timer, which is declared a connector and has no `connect`.
pub minit-Conforms :
    (openssl : Bool) (c : ClassName)
    → is_class (started openssl) c ≡ true
    → (Conforms (started openssl) c) ↔ (c ≢ respond_system_timer)
minit-Conforms openssl c is = (
  λ g same. timer_lem openssl (subst (λ d. Conforms (started openssl) d) same g),
  conforming_lem openssl c is,
)
