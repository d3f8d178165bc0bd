-- ===== src/Extension/Conformity/Tests.antt =====
-- Tests of the classes of src/respondphp.c that run, and what they say.
use respondphp.Base.{
  ◌≡◌, refl, sym, ap, ◌∙◌, some, List, [], ◌∷◌, ◌++◌, Bool, true, false, not, ◌&&◌, ◌||◌, get_elem?,
  arith,
}
use respondphp.Extension.{
  respond_event_loop, respond_connector_pipe, respond_connector_tcp, respond_server_http,
  respond_server_tcp, respond_server_udp, respond_server_pipe, respond_server_routine,
  respond_stream_connection, respond_event_event_emitter_interface, respond_stream_server_interface,
  respond_stream_writable_stream_interface, respond_stream_readable_stream_interface,
  respond_stream_connection_interface, respond_socket_connector_interface,
  respond_async_promise_interface, respond_async_cancelable_promise, respond_network_resolver,
  respond_system_timer, respond_server_secure, respond_stream_secure, respond_connector_secure,
  ClassName, class_id, same_class, Registry, Method, acc_public, acc_static, acc_abstract,
}
use respondphp.Extension.Conformity.Lists.{
  all, any, all-get, any-get, same_bytes, same_bytes_lem, has_flag, same_bool, same_bool_lem,
  and_left, and_right,
}
use respondphp.Extension.Conformity.Calls.{accepts, accepts-Accepts}
use respondphp.Extension.Conformity.{
  declared, interfaces_of, methods_of, Implements, direct, inherits, Fits, Conforms,
}

abbrev pub all_classes : List ClassName
all_classes =
    respond_event_loop ∷ respond_connector_pipe ∷ respond_connector_tcp ∷ respond_server_http
    ∷ respond_server_tcp ∷ respond_server_udp ∷ respond_server_pipe ∷ respond_server_routine
    ∷ respond_stream_connection ∷ respond_event_event_emitter_interface
    ∷ respond_stream_server_interface ∷ respond_stream_writable_stream_interface
    ∷ respond_stream_readable_stream_interface ∷ respond_stream_connection_interface
    ∷ respond_socket_connector_interface ∷ respond_async_promise_interface
    ∷ respond_async_cancelable_promise ∷ respond_network_resolver ∷ respond_system_timer
    ∷ respond_server_secure ∷ respond_stream_secure ∷ respond_connector_secure ∷ []

pub class_listed : (c : ClassName) → get_elem? all_classes (class_id c) ≡ some c
class_listed respond_event_loop = refl
class_listed respond_connector_pipe = refl
class_listed respond_connector_tcp = refl
class_listed respond_server_http = refl
class_listed respond_server_tcp = refl
class_listed respond_server_udp = refl
class_listed respond_server_pipe = refl
class_listed respond_server_routine = refl
class_listed respond_stream_connection = refl
class_listed respond_event_event_emitter_interface = refl
class_listed respond_stream_server_interface = refl
class_listed respond_stream_writable_stream_interface = refl
class_listed respond_stream_readable_stream_interface = refl
class_listed respond_stream_connection_interface = refl
class_listed respond_socket_connector_interface = refl
class_listed respond_async_promise_interface = refl
class_listed respond_async_cancelable_promise = refl
class_listed respond_network_resolver = refl
class_listed respond_system_timer = refl
class_listed respond_server_secure = refl
class_listed respond_stream_secure = refl
class_listed respond_connector_secure = refl

pub same_class_lem : (a b : ClassName) → same_class a b ≡ true → a ≡ b
same_class_lem a b h =
    let same : class_id a ≡ class_id b = ground arith in
    let both : some a ≡ some b =
      sym (class_listed a) ∙ ap (get_elem? all_classes) same ∙ class_listed b in
    cc

-- A test that holds of each class in the list holds of every class.
pub every_class : (p : ClassName → Bool) → all p all_classes ≡ true → (c : ClassName) → p c ≡ true
every_class p h c = all-get p all_classes (class_id c) h (class_listed c)

abbrev pub contains : List ClassName → ClassName → Bool
contains l i = any (λ j. same_class i j) l

abbrev pub interfaces_all : Registry → List ClassName → List ClassName
interfaces_all r [] = []
interfaces_all r (i ∷ is) = interfaces_of r i ++ interfaces_all r is

-- Interfaces of interfaces have none of their own.
abbrev pub closure : Registry → ClassName → List ClassName
closure r c = interfaces_of r c ++ interfaces_all r (interfaces_of r c)

abbrev pub is_closed : Registry → ClassName → Bool
is_closed r c =
    all (contains (closure r c)) (interfaces_of r c)
    && all (λ j. all (contains (closure r c)) (interfaces_of r j)) (closure r c)

abbrev pub fits : Method → Method → Bool
fits own wanted =
    same_bytes own.name wanted.name
    && (not (has_flag acc_abstract own.flags)
        && (same_bool (has_flag acc_static own.flags) (has_flag acc_static wanted.flags)
            && ((not (has_flag acc_public wanted.flags) || has_flag acc_public own.flags)
                && accepts (declared own.arg_info) (declared wanted.arg_info))))

abbrev pub supplies : Registry → ClassName → ClassName → Bool
supplies r c i = all (λ wanted. any (λ own. fits own wanted) (methods_of r c)) (methods_of r i)

abbrev pub conforms : Registry → ClassName → Bool
conforms r c = is_closed r c && all (supplies r c) (closure r c)

-- What the test of a class that its interfaces are closed says.
pub contains-Implements :
    (r : Registry) (c i : ClassName)
    → is_closed r c ≡ true
    → Implements r c i
    → contains (closure r c) i ≡ true
contains-Implements r c i h (direct k _ e) =
    all-get (contains (closure r c)) (interfaces_of r c) k (and_left _ _ h) e
contains-Implements r c i h (inherits {j} above k _ e) =
    let (n, x, at_n, same) =
      any-get (λ x. same_class j x) (closure r c) (contains-Implements r c j h above) in
    let found : get_elem? (closure r c) n ≡ some j =
      at_n ∙ ap some (sym (same_class_lem j x same)) in
    all-get (contains (closure r c)) (interfaces_of r j) k
      (all-get (λ j. all (contains (closure r c)) (interfaces_of r j)) (closure r c) n
        (and_right _ _ h) found)
      e

fits_lem : (own wanted : Method) → fits own wanted ≡ true → Fits own wanted
fits_lem own wanted h =
    let named = and_left (same_bytes own.name wanted.name) _ h in
    let rest = and_right (same_bytes own.name wanted.name) _ h in
    let concrete = and_left (not (has_flag acc_abstract own.flags)) _ rest in
    let more = and_right (not (has_flag acc_abstract own.flags)) _ rest in
    let same = same_bool (has_flag acc_static own.flags) (has_flag acc_static wanted.flags) in
    let last = and_right same _ more in
    let public = not (has_flag acc_public wanted.flags) || has_flag acc_public own.flags in
    record {
      named = same_bytes_lem own.name wanted.name named;
      concrete = not_true (has_flag acc_abstract own.flags) concrete;
      static = same_bool_lem _ _ (and_left same _ more);
      visible = implied _ _ (and_left public _ last);
      callable =
          accepts-Accepts (declared own.arg_info) (declared wanted.arg_info)
            (and_right public _ last);
    }
  where
    not_true : (b : Bool) → not b ≡ true → b ≡ false
    not_true true e = cc
    not_true false e = refl

    implied : (a b : Bool) → (not a || b) ≡ true → a ≡ true → b ≡ true
    implied true b e g = e
    implied false b e g = cc

-- A class that passes the test conforms.
pub conforms-Conforms : (r : Registry) (c : ClassName) → conforms r c ≡ true → Conforms r c
conforms-Conforms r c h i k wanted imp at_k =
    let (n, x, at_n, same) =
      any-get (λ x. same_class i x) (closure r c)
        (contains-Implements r c i (and_left _ _ h) imp) in
    let listed : get_elem? (closure r c) n ≡ some i =
      at_n ∙ ap some (sym (same_class_lem i x same)) in
    let supplied = all-get (supplies r c) (closure r c) n (and_right _ _ h) listed in
    let (m, own, at_m, ok) =
      any-get (λ own. fits own wanted) (methods_of r c)
        (all-get (λ w. any (λ own. fits own w) (methods_of r c)) (methods_of r i) k supplied
          at_k) in
    (m, own, at_m, fits_lem own wanted ok)
