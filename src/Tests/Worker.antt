-- ===== src/Tests/Worker.antt =====
-- The theorem on the clients of a worker.
use electrumz.Base.{true, false, ◌≡◌, refl, [], ◌∷◌}
use electrumz.Base.Outcome.{done}
use electrumz.Config.{default_config}
use electrumz.Connection.State.{connect}
use electrumz.Worker.{
  Host, Worker, null, new_worker, start_worker, Server, work, set_up_tls, connect_client,
}
use electrumz.Worker.Clients.{work-start_worker}

abbrev willing_host : Host
willing_host = record {
  loop_init = true;
  tcp_init = true;
  ip4_addr = λ host port. true;
  cert_parses = λ path. true;
  key_parses = λ path. true;
}

abbrev plain_worker : Worker
plain_worker = record new_worker { ssl_config = null }

started : start_worker willing_host default_config new_worker ≡ done plain_worker tt
unfolding start_worker set_up_tls connect_client
started = refl

-- Three clients, of which one connects with an error and one is not accepted.
abbrev server : Server
server = record {
  tcp_bind = true;
  listen = true;
  clients = (true, true) ∷ (false, true) ∷ (true, false) ∷ [];
}

work-start_worker_example :
    work {T = Unit {0}} server plain_worker ≡ done plain_worker (connect false ∷ [])
work-start_worker_example =
    work-start_worker willing_host server default_config plain_worker refl refl refl started
