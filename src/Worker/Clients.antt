-- ===== src/Worker/Clients.antt =====
-- What a client's connection gets from the worker (`NetWorker`).
use electrumz.Base.{
  ℕ, zero, suc, ◌+◌, ◌==◌, Bool, true, false, ◌≡◌, refl, ap, sym, ◌∙◌, subst, Option, none, some,
  List, [], ◌∷◌, if◌then◌else◌, arith,
}
use electrumz.Base.Outcome.{Outcome, done, fault, After, if-After, continue, pure, ◌>>=◌}
use electrumz.Config.{Config}
use electrumz.Connection.State.{Conn, connect}
use electrumz.Worker.{
  Host, Pointer, unset, null, object, Worker, new_worker, is_empty, connect_client, set_up_tls,
  start_worker, on_client, on_connect, Server, serve_clients, work, with_connection,
}

-- Whether the configuration names a certificate and a key.
abbrev pub has_tls : Config → Bool
has_tls cfg = if is_empty cfg.ssl_cert then false else if is_empty cfg.ssl_key then false else true

abbrev pub tls_pointer : Bool → Pointer (Unit {0})
tls_pointer b = if b then object tt else null

-- The constructor left this pointer.
abbrev HasTls : Pointer (Unit {0}) → Worker → Type 0
HasTls p w = w.ssl_config ≡ p

connect_client-HasTls :
    (cfg : Config) (p : Pointer (Unit {0})) (w : Worker)
    → HasTls p w
    → After (HasTls p) (connect_client cfg w)
unfolding connect_client
connect_client-HasTls cfg p w h =
    if-After (HasTls p) (is_empty cfg.rpchost) _ _ (λ _. h) (λ _. by_port cfg.rpc_port)
  where
    by_port :
        (o : Option ℕ)
        → After (HasTls p) (elim o [
          | none ↦ fault
          | some port ↦
              if port == 0
              then done w tt
              else if is_empty cfg.rpcusername
              then done w tt
              else if is_empty cfg.rpcpassword
              then done w tt
              else done
                  (record w {
                    rpc_client = object (record {
                      host = cfg.rpchost;
                      port = port;
                      username = cfg.rpcusername;
                      password = cfg.rpcpassword;
                    });
                  })
                  tt
        ])
    by_port none = tt
    by_port (some port) =
        if-After (HasTls p) (port == 0) _ _ (λ _. h)
          (λ _.
            if-After (HasTls p) (is_empty cfg.rpcusername) _ _ (λ _. h)
              (λ _. if-After (HasTls p) (is_empty cfg.rpcpassword) _ _ (λ _. h) (λ _. h)))

set_up_tls-HasTls :
    (host : Host) (cfg : Config) (w : Worker)
    → After (HasTls (tls_pointer (has_tls cfg))) (set_up_tls host cfg w)
unfolding set_up_tls
set_up_tls-HasTls host cfg w = by_names (is_empty cfg.ssl_cert) (is_empty cfg.ssl_key)
  where
    w' : Worker
    w' = record w { ssl_config = object tt }

    by_names :
        (cert key : Bool)
        → After (HasTls (tls_pointer (if cert then false else if key then false else true))) (
            if cert
            then connect_client cfg (record w { ssl_config = null })
            else if key
            then connect_client cfg (record w { ssl_config = null })
            else if host.cert_parses cfg.ssl_cert
            then if host.key_parses cfg.ssl_key then connect_client cfg w' else done w' tt
            else done w' tt)
    by_names true key = connect_client-HasTls cfg null (record w { ssl_config = null }) refl
    by_names false true = connect_client-HasTls cfg null (record w { ssl_config = null }) refl
    by_names false false =
        if-After (HasTls (object tt)) (host.cert_parses cfg.ssl_cert) _ _
          (λ _.
            if-After (HasTls (object tt)) (host.key_parses cfg.ssl_key) _ _
              (λ _. connect_client-HasTls cfg (object tt) w' refl) (λ _. refl))
          (λ _. refl)

on_client-connect :
    {T : Type 0} (b : Bool) (w : Worker)
    → w.ssl_config ≡ tls_pointer b
    → on_client {T = T} true w ≡ done w (some (connect b))
unfolding on_client
on_client-connect {T = T} true w e =
    ap
      (λ (p : Pointer (Unit {0})). elim p as (λ _. Outcome Worker (Option (Conn T))) [
        | unset ↦ fault
        | null ↦ done w (some (connect false))
        | object _ ↦ done w (some (connect true))
      ])
      e
on_client-connect {T = T} false w e =
    ap
      (λ (p : Pointer (Unit {0})). elim p as (λ _. Outcome Worker (Option (Conn T))) [
        | unset ↦ fault
        | null ↦ done w (some (connect false))
        | object _ ↦ done w (some (connect true))
      ])
      e

start_worker-HasTls :
    (host : Host) (cfg : Config) (w : Worker)
    → host.loop_init ≡ true
    → host.tcp_init ≡ true
    → host.ip4_addr cfg.host cfg.port ≡ true
    → start_worker host cfg new_worker ≡ done w tt
    → HasTls (tls_pointer (has_tls cfg)) w
unfolding start_worker
start_worker-HasTls host cfg w l t a e =
    let started : start_worker host cfg new_worker ≡ set_up_tls host cfg new_worker =
      rw (l, t, a) refl in
    subst (After (HasTls (tls_pointer (has_tls cfg)))) (sym started ∙ e)
      (set_up_tls-HasTls host cfg new_worker)

-- A client that is accepted gets a connection that takes TLS exactly where the configuration names a
-- certificate and a key, also where they did not load, once the worker's loop, socket and address
-- were set up.
on_client-start_worker :
    {T : Type 0} (host : Host) (cfg : Config) (w : Worker)
    → host.loop_init ≡ true
    → host.tcp_init ≡ true
    → host.ip4_addr cfg.host cfg.port ≡ true
    → start_worker host cfg new_worker ≡ done w tt
    → on_client {T = T} true w ≡ done w (some (connect (has_tls cfg)))
on_client-start_worker host cfg w l t a e =
    on_client-connect (has_tls cfg) w (start_worker-HasTls host cfg w l t a e)

-- How many clients were accepted.
abbrev pub accepted : List (Bool × Bool) → ℕ
accepted [] = 0
accepted ((status_ok, taken) ∷ clients) =
    (if status_ok then if taken then 1 else 0 else 0) + accepted clients

abbrev pub repeated : {A : Type 0} → ℕ → A → List A
repeated zero a = []
repeated (suc n) a = a ∷ repeated n a

serve_clients-cons :
    {T : Type 0} (w : Worker) (status_ok taken : Bool) (clients : List (Bool × Bool))
    (c : Option (Conn T)) (conns : List (Conn T))
    → on_connect status_ok taken w ≡ done w c
    → serve_clients clients w ≡ done w conns
    → serve_clients ((status_ok, taken) ∷ clients) w ≡ done w (with_connection c conns)
unfolding serve_clients
serve_clients-cons {T = T} w status_ok taken clients c conns e f =
    ap
      (λ (o : Outcome Worker (Option (Conn T))).
        continue o (λ c. do conns ← serve_clients clients; pure (with_connection c conns)))
      e
    ∙ ap
        (λ (o : Outcome Worker (List (Conn T))).
          continue o (λ conns. pure (with_connection c conns)))
        f

done_repeated :
    {T : Type 0} {m n : ℕ} (w : Worker) (c : Conn T)
    → m ≡ n
    → Path (Outcome Worker (List (Conn T))) (done w (repeated m c)) (done w (repeated n c))
done_repeated {T = T} w c e =
    ap (λ (n : ℕ). let o : Outcome Worker (List (Conn T)) = done w (repeated n c) in o) e

serve_clients-repeated :
    {T : Type 0} (b : Bool) (w : Worker) (clients : List (Bool × Bool))
    → w.ssl_config ≡ tls_pointer b
    → serve_clients {T = T} clients w ≡ done w (repeated (accepted clients) (connect b))
unfolding serve_clients on_connect on_client
serve_clients-repeated b w [] e = refl
serve_clients-repeated b w ((true, true) ∷ clients) e =
    let counted : suc (accepted clients) ≡ 1 + accepted clients = omega arith in
    serve_clients-cons w true true clients (some (connect b))
      (repeated (accepted clients) (connect b)) (on_client-connect b w e)
      (serve_clients-repeated b w clients e)
    ∙ done_repeated w (connect b) counted
serve_clients-repeated b w ((true, false) ∷ clients) e =
    let counted : accepted clients ≡ 0 + accepted clients = omega arith in
    serve_clients-cons w true false clients none (repeated (accepted clients) (connect b)) refl
      (serve_clients-repeated b w clients e)
    ∙ done_repeated w (connect b) counted
serve_clients-repeated b w ((false, taken) ∷ clients) e =
    let counted : accepted clients ≡ 0 + accepted clients = omega arith in
    serve_clients-cons w false taken clients none (repeated (accepted clients) (connect b)) refl
      (serve_clients-repeated b w clients e)
    ∙ done_repeated w (connect b) counted

-- The clients that the server's loop can reach.
abbrev pub reached : Server → List (Bool × Bool)
reached server = if server.tcp_bind then if server.listen then server.clients else [] else []

-- `Work` behind the constructor: where the socket is bound and listens, each client that connects
-- without an error and is accepted gets a connection, and no other, and where it does not there
-- are none. Every connection takes TLS exactly where the configuration names a certificate and a
-- key, also where they did not load. The worker's loop, socket and address were set up.
pub work-start_worker :
    {T : Type 0} (host : Host) (server : Server) (cfg : Config) (w : Worker)
    → host.loop_init ≡ true
    → host.tcp_init ≡ true
    → host.ip4_addr cfg.host cfg.port ≡ true
    → start_worker host cfg new_worker ≡ done w tt
    → work {T = T} server w ≡ done w (repeated (accepted (reached server)) (connect (has_tls cfg)))
unfolding work
work-start_worker {T} host server cfg w l t a e = by_tests server.tcp_bind server.listen
  where
    by_tests :
        (b c : Bool)
        → Path
            (Outcome Worker (List (Conn T)))
            (if b then if c then serve_clients server.clients w else done w [] else done w [])
            (done w (
              repeated
                (accepted (if b then if c then server.clients else [] else []))
                (connect (has_tls cfg))))
    by_tests true true =
        serve_clients-repeated (has_tls cfg) w server.clients
          (start_worker-HasTls host cfg w l t a e)
    by_tests true false = refl
    by_tests false c = refl
