-- ===== src/Commands/Types.antt =====
-- The values that the replies carry: the classes of include/electrumz/Commands.h.
use electrumz.Base.{String, Option, List, Bool, ℤ, Bytes}

pub record TxInfo : Type 0 where
  pub fee : ℤ
  pub height : ℤ
  pub hash : String

pub record TxOut : Type 0 where
  pub pos : ℤ
  pub value : ℤ
  pub hash : String
  pub height : ℤ

-- The type argument stands for C++ `float`.
pub record PeerInfo (Float : Type 0) : Type 0 where
  pub ip : String
  pub hostname : String
  pub protocol_max : Float
  pub pruning_limit : Option ℤ
  pub tcp_port : Option ℤ
  pub ssl_port : Option ℤ

pub record ScriptStatus : Type 0 where
  pub txn : List TxInfo

pub record BcHeadersSubscribeResponse : Type 0 where
  pub height : ℤ
  pub hex : Bytes

pub record ShGetBalanceResponse : Type 0 where
  pub confirmed : String
  pub unconfirmed : String

pub record TxGetMerkleResponse : Type 0 where
  pub merkle : List String
  pub block_height : ℤ
  pub pos : ℤ

pub record SvFeaturesResponse (Float : Type 0) : Type 0 where
  pub genesis_hash : String
  pub server_version : String
  pub hash_function : String
  pub protocol_max : Float
  pub protocol_min : Float
  pub hosts : List (String × ℤ × ℤ)

pub record SvVersionResponse : Type 0 where
  pub software_version : String
  pub protocol_version : String

-- What a handler answers with, a constructor for each response class and its fields.
pub data Response (Float : Type 0) : Type 0 where
  block_header block_headers : Response Float
  estimatefee relayfee : Float → Response Float
  headers_subscribe : BcHeadersSubscribeResponse → Response Float
  get_balance : ShGetBalanceResponse → Response Float
  get_history get_mempool : List TxInfo → Response Float
  history utxos : Response Float
  list_unspent : List TxOut → Response Float
  subscribe : ScriptStatus → Response Float
  broadcast : String → Response Float
  get : Bytes → Response Float
  get_merkle : TxGetMerkleResponse → Response Float
  id_from_pos : String → Response Float
  changes : Response Float
  get_fee_histogram : List (ℤ × ℤ) → Response Float
  add_peer : Bool → Response Float
  banner : String → Response Float
  donation_address : String → Response Float
  features : SvFeaturesResponse Float → Response Float
  peers_subscribe : List (PeerInfo Float) → Response Float
  ping : Response Float
  version : SvVersionResponse → Response Float
