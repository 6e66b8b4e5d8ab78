-- ===== src/Commands/Map/Names.antt =====
-- The lookup of a method by its name.
use electrumz.Base.{
  String, str_eq, Option, none, some, subst, List, [], ◌∷◌, ◌≡◌, refl, All, Bool, if◌then◌else◌,
  Bool-cases, inl, inr, ℕ, suc, get_elem?, none-ne-some, some-injective, eq_iff, ap, sym, ◌∙◌, ◌↔◌,
  All-get_elem?,
}
use electrumz.Commands.Map.{
  ElectrumCommands, unknown, bc_block_header, bc_block_headers, bc_estimatefee,
  bc_headers_subscribe, bc_relayfee, sh_get_balance, sh_get_history, sh_get_mempool, sh_history,
  sh_list_unspent, sh_subscribe, sh_utxos, tx_broadcast, tx_get, tx_get_merkle, tx_id_from_pos,
  mp_changes, mp_get_fee_histogram, sv_add_peer, sv_banner, sv_donation_address, sv_features,
  sv_peers_subscribe, sv_ping, sv_version, command_map, find, find_command,
}

pub block_header_named : find_command "blockchain.block.header" ≡ some bc_block_header
unfolding find_command command_map find
block_header_named = refl

pub tx_get_named : find_command "blockchain.transaction.get" ≡ some tx_get
unfolding find_command command_map find
tx_get_named = refl

pub subscribe_named : find_command "blockchain.scripthash.subscribe" ≡ some sh_subscribe
unfolding find_command command_map find
subscribe_named = refl

-- The names of the methods in the Electrum protocol.
abbrev pub name_of : ElectrumCommands → Option String
name_of unknown = none
name_of bc_block_header = some "blockchain.block.header"
name_of bc_block_headers = some "blockchain.block.headers"
name_of bc_estimatefee = some "blockchain.estimatefee"
name_of bc_headers_subscribe = some "blockchain.headers.subscribe"
name_of bc_relayfee = some "blockchain.relayfee"
name_of sh_get_balance = some "blockchain.scripthash.get_balance"
name_of sh_get_history = some "blockchain.scripthash.get_history"
name_of sh_get_mempool = some "blockchain.scripthash.get_mempool"
name_of sh_history = some "blockchain.scripthash.history"
name_of sh_list_unspent = some "blockchain.scripthash.listunspent"
name_of sh_subscribe = some "blockchain.scripthash.subscribe"
name_of sh_utxos = some "blockchain.scripthash.utxos"
name_of tx_broadcast = some "blockchain.transaction.broadcast"
name_of tx_get = some "blockchain.transaction.get"
name_of tx_get_merkle = some "blockchain.transaction.get_merkle"
name_of tx_id_from_pos = some "blockchain.transaction.id_from_pos"
name_of mp_changes = some "mempool.changes"
name_of mp_get_fee_histogram = some "mempool.get_fee_histogram"
name_of sv_add_peer = some "server.add_peer"
name_of sv_banner = some "server.banner"
name_of sv_donation_address = some "server.donation_address"
name_of sv_features = some "server.features"
name_of sv_peers_subscribe = some "server.peers.subscribe"
name_of sv_ping = some "server.ping"
name_of sv_version = some "server.version"

name_of-All : All (λ entry. name_of entry.1 ≡ some entry.0) command_map
unfolding command_map
name_of-All = (
  refl,
  (
    refl,
    (
      refl,
      (
        refl,
        (
          refl,
          (
            refl,
            (
              refl,
              (
                refl,
                (
                  refl,
                  (
                    refl,
                    (
                      refl,
                      (
                        refl,
                        (
                          refl,
                          (
                            refl,
                            (
                              refl,
                              (
                                refl,
                                (
                                  refl,
                                  (
                                    refl,
                                    (refl, (refl, (refl, (refl, (refl, (refl, (refl, tt))))))),
                                  ),
                                ),
                              ),
                            ),
                          ),
                        ),
                      ),
                    ),
                  ),
                ),
              ),
            ),
          ),
        ),
      ),
    ),
  ),
)

under_name :
    (c : ElectrumCommands) (name method : String)
    → find_command name ≡ some c
    → some name ≡ some method
    → find_command method ≡ some c
under_name c name method e f =
    subst (λ (k : String). find_command k ≡ some c) (some-injective name method f) e

find_command_named :
    (method : String) (c : ElectrumCommands)
    → name_of c ≡ some method
    → find_command method ≡ some c
unfolding find_command command_map find
find_command_named method unknown e = absurd (none-ne-some method e)
find_command_named method bc_block_header e =
    under_name bc_block_header "blockchain.block.header" method refl e
find_command_named method bc_block_headers e =
    under_name bc_block_headers "blockchain.block.headers" method refl e
find_command_named method bc_estimatefee e =
    under_name bc_estimatefee "blockchain.estimatefee" method refl e
find_command_named method bc_headers_subscribe e =
    under_name bc_headers_subscribe "blockchain.headers.subscribe" method refl e
find_command_named method bc_relayfee e = under_name bc_relayfee "blockchain.relayfee" method refl e
find_command_named method sh_get_balance e =
    under_name sh_get_balance "blockchain.scripthash.get_balance" method refl e
find_command_named method sh_get_history e =
    under_name sh_get_history "blockchain.scripthash.get_history" method refl e
find_command_named method sh_get_mempool e =
    under_name sh_get_mempool "blockchain.scripthash.get_mempool" method refl e
find_command_named method sh_history e =
    under_name sh_history "blockchain.scripthash.history" method refl e
find_command_named method sh_list_unspent e =
    under_name sh_list_unspent "blockchain.scripthash.listunspent" method refl e
find_command_named method sh_subscribe e =
    under_name sh_subscribe "blockchain.scripthash.subscribe" method refl e
find_command_named method sh_utxos e =
    under_name sh_utxos "blockchain.scripthash.utxos" method refl e
find_command_named method tx_broadcast e =
    under_name tx_broadcast "blockchain.transaction.broadcast" method refl e
find_command_named method tx_get e = under_name tx_get "blockchain.transaction.get" method refl e
find_command_named method tx_get_merkle e =
    under_name tx_get_merkle "blockchain.transaction.get_merkle" method refl e
find_command_named method tx_id_from_pos e =
    under_name tx_id_from_pos "blockchain.transaction.id_from_pos" method refl e
find_command_named method mp_changes e = under_name mp_changes "mempool.changes" method refl e
find_command_named method mp_get_fee_histogram e =
    under_name mp_get_fee_histogram "mempool.get_fee_histogram" method refl e
find_command_named method sv_add_peer e = under_name sv_add_peer "server.add_peer" method refl e
find_command_named method sv_banner e = under_name sv_banner "server.banner" method refl e
find_command_named method sv_donation_address e =
    under_name sv_donation_address "server.donation_address" method refl e
find_command_named method sv_features e = under_name sv_features "server.features" method refl e
find_command_named method sv_peers_subscribe e =
    under_name sv_peers_subscribe "server.peers.subscribe" method refl e
find_command_named method sv_ping e = under_name sv_ping "server.ping" method refl e
find_command_named method sv_version e = under_name sv_version "server.version" method refl e

module _ {ℓ} {V : Type ℓ} where
  find_sound :
      (k : String) (v : V) (m : List (String × V))
      → find k m ≡ some v
      → (i : ℕ) × (get_elem? m i ≡ some (k, v))
  unfolding find
  find_sound k v [] e = absurd (none-ne-some v e)
  find_sound k v ((j, u) ∷ m) e = elim (Bool-cases (str_eq j k)) [
    | inl same ↦ (
      0,
      ap (λ (e : String × V). some e)
          (pair_path ((eq_iff j k).0 same) (
            some-injective u v (sym (ap (λ (b : Bool). if b then some u else find k m) same) ∙ e))),
    )
    | inr other ↦
        let (i, at_i) =
          find_sound k v m (sym (ap (λ (b : Bool). if b then some u else find k m) other) ∙ e) in
        (suc i, at_i)
  ]
    where
      pair_path : {s t : String} {a b : V} → s ≡ t → a ≡ b → Path (String × V) (s, a) (t, b)
      pair_path p q = λ i. (p i, q i)

-- The lookup finds the methods of the protocol under their names: it answers a method for a name if
-- and only if the protocol calls that method so. It answers none under every other name.
pub find_command_iff :
    (method : String) (c : ElectrumCommands)
    → (find_command method ≡ some c) ↔ (name_of c ≡ some method)
unfolding find_command
find_command_iff method c = (
  λ e.
      let (i, at_i) = find_sound method c command_map e in
      All-get_elem? (λ entry. name_of entry.1 ≡ some entry.0) command_map i (method, c) name_of-All
        at_i,
  find_command_named method c,
)
