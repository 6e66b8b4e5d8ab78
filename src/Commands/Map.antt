-- ===== src/Commands/Map.antt =====
-- The methods of the Electrum protocol: `ElectrumCommands` and `CommandMap` of
-- include/electrumz/Commands.h.
pub mod Names
use electrumz.Base.{String, str_eq, Option, none, some, List, [], ◌∷◌, if◌then◌else◌}

pub data ElectrumCommands : Type 0 where
  unknown : ElectrumCommands
  bc_block_header bc_block_headers bc_estimatefee bc_headers_subscribe : ElectrumCommands
  bc_relayfee : ElectrumCommands
  sh_get_balance sh_get_history sh_get_mempool sh_history sh_list_unspent : ElectrumCommands
  sh_subscribe sh_utxos : ElectrumCommands
  tx_broadcast tx_get tx_get_merkle tx_id_from_pos : ElectrumCommands
  mp_changes mp_get_fee_histogram : ElectrumCommands
  sv_add_peer sv_banner sv_donation_address sv_features sv_peers_subscribe : ElectrumCommands
  sv_ping sv_version : ElectrumCommands

unfoldable pub command_map : List (String × ElectrumCommands)
command_map =
    ("blockchain.block.header", bc_block_header)
    ∷ ("blockchain.block.headers", bc_block_headers)
    ∷ ("blockchain.estimatefee", bc_estimatefee)
    ∷ ("blockchain.headers.subscribe", bc_headers_subscribe)
    ∷ ("blockchain.relayfee", bc_relayfee)
    ∷ ("blockchain.scripthash.get_balance", sh_get_balance)
    ∷ ("blockchain.scripthash.get_history", sh_get_history)
    ∷ ("blockchain.scripthash.get_mempool", sh_get_mempool)
    ∷ ("blockchain.scripthash.history", sh_history)
    ∷ ("blockchain.scripthash.listunspent", sh_list_unspent)
    ∷ ("blockchain.scripthash.subscribe", sh_subscribe)
    ∷ ("blockchain.scripthash.utxos", sh_utxos)
    ∷ ("blockchain.transaction.broadcast", tx_broadcast)
    ∷ ("blockchain.transaction.get", tx_get)
    ∷ ("blockchain.transaction.get_merkle", tx_get_merkle)
    ∷ ("blockchain.transaction.id_from_pos", tx_id_from_pos)
    ∷ ("mempool.changes", mp_changes)
    ∷ ("mempool.get_fee_histogram", mp_get_fee_histogram)
    ∷ ("server.add_peer", sv_add_peer)
    ∷ ("server.banner", sv_banner)
    ∷ ("server.donation_address", sv_donation_address)
    ∷ ("server.features", sv_features)
    ∷ ("server.peers.subscribe", sv_peers_subscribe)
    ∷ ("server.ping", sv_ping)
    ∷ ("server.version", sv_version)
    ∷ []

module _ {ℓ} {V : Type ℓ} where
  -- `map.find(key)`, none for `map.end()`.
  unfoldable pub find : String → List (String × V) → Option V
  find k [] = none
  find k ((j, v) ∷ m) = if str_eq j k then some v else find k m

unfoldable pub find_command : String → Option ElectrumCommands
unfolding command_map find
find_command method = find method command_map
