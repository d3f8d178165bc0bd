-- ===== src/Examples/Handing.antt =====
-- Clients that the actor hands over, at concrete inputs.
use respondphp.Base.{◌≡◌, refl, none, some, List, [], ◌∷◌, true, false}
use respondphp.Zend.{pos, negsuc}
use respondphp.Reactor.{Reactor, reactor_init}
use respondphp.Server.Tcp
use respondphp.Server.Pipe
use respondphp.Server.Handover.{
  Arrival, tcp_listener, pipe_listener, in_worker, in_actor, told, closes, clients_of, arrivals_of,
}
use respondphp.Server.Handover.Told.{in_worker-told}

abbrev tcp_reactor : Reactor
tcp_reactor = Tcp.fill false (reactor_init 1)

abbrev pipe_reactor : Reactor
pipe_reactor = Pipe.fill (reactor_init 2)

-- A client that worker 4 takes, an error, one that worker 5 takes, and one whose write fails at once.
abbrev arrivals : List Arrival
arrivals =
    record {
      listener = tcp_listener;
      reactor = tcp_reactor;
      status = pos 0;
      client = 10;
      request = 20;
      accepted = true;
      written = true;
      reader = some 4;
      base = 30;
      peer = 40;
      taken = true;
    }
    ∷ record {
      listener = tcp_listener;
      reactor = tcp_reactor;
      status = negsuc 0;
      client = 11;
      request = 21;
      accepted = true;
      written = true;
      reader = none;
      base = 31;
      peer = 41;
      taken = true;
    }
    ∷ record {
      listener = pipe_listener;
      reactor = pipe_reactor;
      status = pos 0;
      client = 12;
      request = 22;
      accepted = true;
      written = true;
      reader = some 5;
      base = 32;
      peer = 42;
      taken = true;
    }
    ∷ record {
      listener = pipe_listener;
      reactor = pipe_reactor;
      status = pos 0;
      client = 13;
      request = 23;
      accepted = true;
      written = false;
      reader = some 4;
      base = 33;
      peer = 43;
      taken = true;
    }
    ∷ []

clients_of_worker : clients_of 4 arrivals ≡ (tcp_reactor, 40, []) ∷ []
clients_of_worker = refl

in_worker-told_example :
    (told (in_worker 6 7 4 arrivals) ≡ clients_of 4 arrivals)
    × (closes 13 (in_actor 6 7 arrivals) ≡ arrivals_of 13 arrivals)
in_worker-told_example = in_worker-told 6 7 4 13 arrivals
