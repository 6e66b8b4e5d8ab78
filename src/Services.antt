-- ===== src/Services.antt =====
-- The services behind a connection, put together: the RPC client and the database of transaction
-- outputs, as `JsonRPCServer::HandleCommand` calls them.
pub mod Unlinked
pub mod Subscribe
pub mod Loaded
use electrumz.Base.{String, Bytes, List, [], ◌∷◌, ℤ}
use electrumz.Base.Outcome.{Outcome, done, threw, fault, Exec, pure, ◌>>=◌}
use electrumz.Bitcoin.{BitcoinLib}
use electrumz.Commands.{FormatLib}
use electrumz.Connection.Dispatch.{Backend, Libraries}
use electrumz.Connection.State.{Platform}
use electrumz.Json.{JsonLib}
use electrumz.Lmdb.{Lmdb}
use electrumz.Rpc.{Client, Network, query_all}
use electrumz.Txo.Database.{get_txos}

module _ {A B : Type 0} where
  -- A step of one of two services.
  abbrev pub on_left : {R : Type 0} → Exec A R → Exec (A × B) R
  on_left m (a, b) = elim (m a) [
    | done a' r ↦ done (a', b) r
    | threw a' ↦ threw (a', b)
    | fault ↦ fault
  ]

  abbrev pub on_right : {R : Type 0} → Exec B R → Exec (A × B) R
  on_right m (a, b) = elim (m b) [
    | done b' r ↦ done (a, b') r
    | threw b' ↦ threw (a, b')
    | fault ↦ fault
  ]

module _ (json : JsonLib) (bitcoin : BitcoinLib) (fmt : FormatLib) (net : Network) (lmdb : Lmdb)
    (platform : Platform) where
  open json use {Json, from_int, from_str}

  -- `this->rpc->Query("getblockhash", h, "test")`.
  unfoldable pub query_block_hash : ℤ → Exec (Client Json) (Unit {0})
  query_block_hash h = do
    future ← query_all json bitcoin fmt net "getblockhash" (from_int h ∷ from_str "test" ∷ [])
    pure tt

  -- `db->GetTXOs(key, txn)` for an empty `txn`.
  unfoldable pub look_up : Bytes → Exec lmdb.Env ℤ
  look_up key = do found ← get_txos lmdb key []; pure found.0

  abbrev pub backend : Backend
  backend = record {
    Services = Client Json × lmdb.Env;
    query_block_hash = λ h. on_left (query_block_hash h);
    get_txos = λ key. on_right (look_up key);
  }

  abbrev pub libraries : Libraries
  libraries = record {
    json = json;
    bitcoin = bitcoin;
    fmt = fmt;
    platform = platform;
    backend = backend;
  }
