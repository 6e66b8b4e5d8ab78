-- ===== src/Services/Loaded.antt =====
-- A subscription when the block files have been loaded.
use mathlib.Core.List.{reverse}
use electrumz.Base.{
  ℕ, ◌≤◌, String, Bytes, true, false, ◌≡◌, Option, some, List, [], length, ℤ, IsBehind,
}
use electrumz.Base.Outcome.{done}
use electrumz.Bitcoin.{BitcoinLib}
use electrumz.Commands.{FormatLib}
use electrumz.Connection.Dispatch.{Libraries, handle_command}
use electrumz.Connection.Dispatch.Methods.{IsCall, sent, Accepts}
use electrumz.Connection.State.{Platform}
use electrumz.Json.{JsonLib}
use electrumz.Lmdb.{Lmdb, ok}
use electrumz.Rpc.{Client, Network}
use electrumz.Services.{libraries}
use electrumz.Services.Subscribe.{no_history, handle_command-subscribe}
use electrumz.Txo.Preload.Addresses.{HasSizes, AreApart, entry_at}
use electrumz.Txo.Preload.Answers.{Finds}
use electrumz.Txo.Preload.Answers.Loaded.{get_txos-preloaded}
use electrumz.Txo.Preload.Blocks.{Block}
use electrumz.Txo.Preload.Blocks.Journal.{Journal, IsIn}
use electrumz.Txo.Preload.Passes.{Preload, preloaded, IsComplete}

module _ (json : JsonLib) (bitcoin : BitcoinLib) (fmt : FormatLib) (net : Network) (lmdb : Lmdb)
    (platform : Platform) (db : Journal lmdb) (read_block : Bytes → Bytes × Option Block)
    (moves_on : (body : Bytes) → IsBehind body (read_block body).0)
    (gives_sizes : (body : Bytes) (blk : Block) → (read_block body).1 ≡ some blk → HasSizes blk)
    (apart : AreApart lmdb db) (finds : Finds lmdb db) where
  open json use {Json}
  open bitcoin use {parse_hex}
  open lmdb use {Env, Txn, Dbi, begin, open_dbi}

  abbrev libs : Libraries
  libs = libraries json bitcoin fmt net lmdb platform

  -- When both passes of `PreLoadBlocks` have loaded the files without a code, a subscription to a
  -- script hash of 32 bytes is answered by one text, the result for a script without any history,
  -- whether or not a block of the files pays to the script hash. The socket takes the text, the
  -- request has its members, the script hash was not in the database before, there is a thread, the
  -- transaction of the lookup and its database are opened, hashes of transactions have 32 bytes,
  -- reading a block does not move backwards, and LMDB keeps what it documents.
  pub handle_command-subscribe_preloaded :
      (files : List Bytes) (n : ℕ) (env : Env) (p : Preload lmdb bitcoin read_block files n env)
      (c : Client Json) (out : List Bytes) (cmd params p0 : Json) (hash : String) (id : ℤ)
      (env₁ env₂ : Env) (txn : Txn) (dbi : Dbi)
      → 1 ≤ n
      → IsComplete lmdb bitcoin read_block files n p.outputs
      → IsComplete lmdb bitcoin read_block files n p.inputs
      → ((v : Bytes) → ¬ IsIn (entry_at lmdb db (reverse (parse_hex hash)) v) (db.stored env))
      → begin (preloaded lmdb bitcoin read_block files n p) ≡ (env₁, ok txn)
      → open_dbi txn "addr" false env₁ ≡ (env₂, ok dbi)
      → IsCall libs cmd "blockchain.scripthash.subscribe" id
      → json.at_key cmd "params" ≡ some params
      → json.is_array params ≡ true
      → json.at_index params 0 ≡ some p0
      → json.is_string p0 ≡ true
      → json.get_string p0 ≡ some hash
      → length (parse_hex hash) ≡ 32
      → Accepts libs
      → (env' : Env) × (handle_command libs cmd
            (record { out = out; services = (c, preloaded lmdb bitcoin read_block files n p) })
          ≡ done
              (sent libs
                (no_history json bitcoin fmt net lmdb platform id)
                (record { out = out; services = (c, env') }))
              0)
  handle_command-subscribe_preloaded files n env p c out cmd params p0 hash id env₁ env₂ txn dbi
        has_threads outputs_done inputs_done fresh b o call has_params is_array has_p0 is_string
        gets size accepts =
      let (env', found) =
        get_txos-preloaded lmdb bitcoin db read_block moves_on gives_sizes apart finds files n
          has_threads env p outputs_done inputs_done (reverse (parse_hex hash)) fresh [] env₁ env₂
          txn dbi b o in
      (
        env',
        handle_command-subscribe json bitcoin fmt net lmdb platform cmd params p0 hash id
            (record { out = out; services = (c, preloaded lmdb bitcoin read_block files n p) }) env'
            _ [] call has_params is_array has_p0 is_string gets size accepts found,
      )
