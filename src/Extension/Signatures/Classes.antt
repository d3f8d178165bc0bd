-- ===== src/Extension/Signatures/Classes.antt =====
-- The argument information that the headers of the classes declare, in include.
use respondphp.Base.{none, some, [], ◌∷◌, false, codes}
use respondphp.Extension.{ArgInfo, is_long, is_string, is_array, is_callable, is_object}
use respondphp.Extension.Signatures.{untyped_arg, typed_arg, variadic_arg}

abbrev pub event_loop_run : ArgInfo
event_loop_run = record { required = none; returns = none; arguments = untyped_arg "option" ∷ [] }

abbrev pub server_tcp_construct : ArgInfo
server_tcp_construct = record {
  required = none;
  returns = none;
  arguments = typed_arg "port" is_long false ∷ typed_arg "host" is_string false ∷ [];
}

abbrev pub server_pipe_construct : ArgInfo
server_pipe_construct = record {
  required = none;
  returns = none;
  arguments = untyped_arg "socket_path" ∷ [];
}

abbrev pub server_udp_construct : ArgInfo
server_udp_construct = record {
  required = none;
  returns = none;
  arguments = typed_arg "port" is_long false ∷ typed_arg "host" is_string false ∷ [];
}

abbrev pub server_udp_send : ArgInfo
server_udp_send = record {
  required = none;
  returns = some (is_object (codes "Respond\\Async\\PromiseInterface"), false);
  arguments =
      typed_arg "host" is_string false
      ∷ typed_arg "port" is_long false
      ∷ typed_arg "data" is_string false
      ∷ [];
}

abbrev pub server_http_construct : ArgInfo
server_http_construct = record {
  required = none;
  returns = none;
  arguments =
      typed_arg "socket" (is_object (codes "Respond\\Stream\\ServerInterface")) false
      ∷ typed_arg "options" is_array false
      ∷ [];
}

abbrev pub server_secure_construct : ArgInfo
server_secure_construct = record {
  required = none;
  returns = none;
  arguments =
      typed_arg "socket" (is_object (codes "Respond\\Stream\\ServerInterface")) false
      ∷ typed_arg "options" is_array false
      ∷ [];
}

abbrev pub server_routine_construct : ArgInfo
server_routine_construct = record {
  required = none;
  returns = none;
  arguments = typed_arg "execution" is_callable false ∷ [];
}

abbrev pub server_routine_execute : ArgInfo
server_routine_execute = record {
  required = none;
  returns = some (is_object (codes "Respond\\Async\\PromiseInterface"), false);
  arguments = untyped_arg "args" ∷ [];
}

abbrev pub connector_tcp_connect : ArgInfo
connector_tcp_connect = record {
  required = none;
  returns = some (is_object (codes "Respond\\Async\\PromiseInterface"), false);
  arguments = variadic_arg "arguments" ∷ [];
}

abbrev pub connector_pipe_connect : ArgInfo
connector_pipe_connect = record {
  required = none;
  returns = some (is_object (codes "Respond\\Async\\PromiseInterface"), false);
  arguments = variadic_arg "arguments" ∷ [];
}

abbrev pub connector_secure_connect : ArgInfo
connector_secure_connect = record {
  required = none;
  returns = some (is_object (codes "Respond\\Async\\PromiseInterface"), false);
  arguments = variadic_arg "arguments" ∷ [];
}

abbrev pub network_resolver_getaddrinfo : ArgInfo
network_resolver_getaddrinfo = record {
  required = none;
  returns = some (is_object (codes "Respond\\Async\\PromiseInterface"), false);
  arguments = typed_arg "hostname" is_string false ∷ [];
}

abbrev pub network_resolver_getnameinfo : ArgInfo
network_resolver_getnameinfo = record {
  required = none;
  returns = some (is_object (codes "Respond\\Async\\PromiseInterface"), false);
  arguments = typed_arg "ip_address" is_string false ∷ [];
}

abbrev pub system_timer_timeout : ArgInfo
system_timer_timeout = record {
  required = none;
  returns = some (is_object (codes "Respond\\Async\\PromiseInterface"), false);
  arguments = typed_arg "milliseconds" is_long false ∷ [];
}
