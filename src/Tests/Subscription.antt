-- ===== src/Tests/Subscription.antt =====
-- The theorem on a subscription, over the database of Tests/Answers.
use electrumz.Base.{pos, ◌≡◌, refl, [], arith}
use electrumz.Base.Outcome.{done}
use electrumz.Connection.Dispatch.{Libraries, handle_command}
use electrumz.Connection.Dispatch.Methods.{IsCall, sent}
use electrumz.Rpc.{new_client}
use electrumz.Services.{libraries}
use electrumz.Services.Subscribe.{no_history}
use electrumz.Services.Loaded.{handle_command-subscribe_preloaded}
use electrumz.Tests.Rpc.{network}
use electrumz.Tests.Bitcoin.{counting}
use electrumz.Tests.Journal.{Store, empty, journaled, journal}
use electrumz.Tests.Libraries.{
  Value, text, number, single, request, small_json, no_format, platform,
}
use electrumz.Txo.Preload.Passes.{preloaded}
use electrumz.Txo.Preload.Reader.Headers.{load_block-IsBehind}
use electrumz.Tests.Answers.{
  hex_bitcoin, read_one, one_moves_on, load, files, both, both-IsComplete, names_apart, finding,
  load-HasSizes,
}

abbrev subscription : Value
subscription = request "blockchain.scripthash.subscribe" (pos 7) (single (text "00"))

abbrev libs : Libraries
libs = libraries small_json hex_bitcoin no_format network journaled platform

is_subscription : IsCall libs subscription "blockchain.scripthash.subscribe" (pos 7)
is_subscription = record {
  m = text "blockchain.scripthash.subscribe";
  i = number (pos 7);
  not_null = refl;
  has_method = refl;
  named = refl;
  has_id = refl;
  numbered = refl;
}

handle_command-subscribe_preloaded_example :
    (env : Store) × (handle_command libs subscription (record {
      out = [];
      services = (new_client "user" "password", preloaded journaled hex_bitcoin load files 1 both);
    })
      ≡ done
          (sent libs
            (no_history small_json hex_bitcoin no_format network journaled platform (pos 7))
            (record { out = []; services = (new_client "user" "password", env) }))
          0)
handle_command-subscribe_preloaded_example =
    handle_command-subscribe_preloaded small_json hex_bitcoin no_format network journaled platform
      journal load (load_block-IsBehind counting read_one one_moves_on) load-HasSizes names_apart
      finding files 1 empty both (new_client "user" "password") [] subscription (single (text "00"))
      (text "00") "00" (pos 7) _ _ tt 1 (omega arith) both-IsComplete.0 both-IsComplete.1 (λ v i. i)
      refl refl is_subscription refl refl refl refl refl refl (λ out bytes. refl)
