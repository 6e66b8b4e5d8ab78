-- ===== src/Tests/Commands.antt =====
-- The theorems on requests, on requests for known and unknown methods.
use electrumz.Base.{String, pos, some, [], ◌≡◌, refl, ◌↔◌}
use electrumz.Base.Outcome.{done}
use electrumz.Commands.{success_reply}
use electrumz.Commands.Map.{sv_ping, command_map, find, find_command}
use electrumz.Commands.Map.Names.{name_of, find_command_iff}
use electrumz.Connection.Dispatch.{handle_command}
use electrumz.Connection.Dispatch.Steps.{Answered}
use electrumz.Connection.Dispatch.Replies.{handle_command-Answered}
use electrumz.Connection.Dispatch.Methods.{IsCall, sent, handle_command-result}
use electrumz.Tests.Libraries.{
  Value, absent_value, text, number, request, small_json, no_bitcoin, no_format, libraries, new_io,
}

abbrev call_of : String → Value → Value
call_of method params = request method (pos 7) params

abbrev is_call :
    (method : String) (params : Value) → IsCall libraries (call_of method params) method (pos 7)
is_call method params = record {
  m = text method;
  i = number (pos 7);
  not_null = refl;
  has_method = refl;
  named = refl;
  has_id = refl;
  numbered = refl;
}

find_command_iff_example :
    (find_command "server.ping" ≡ some sv_ping) ↔ (name_of sv_ping ≡ some "server.ping")
find_command_iff_example = find_command_iff "server.ping" sv_ping

handle_command-Answered_example :
    Answered [] (handle_command libraries (call_of "server.ping" absent_value) new_io)
handle_command-Answered_example =
    handle_command-Answered libraries (call_of "server.ping" absent_value) new_io

ping_found : find_command "server.ping" ≡ some sv_ping
unfolding find_command command_map find
ping_found = refl

handle_command-result_example :
    (result : Value) × (handle_command libraries (call_of "server.ping" absent_value) new_io
      ≡ done
          (sent libraries (success_reply small_json no_bitcoin no_format (pos 7) result) new_io)
          0)
handle_command-result_example =
    handle_command-result libraries (call_of "server.ping" absent_value) "server.ping" (pos 7)
      sv_ping new_io (is_call "server.ping" absent_value) ping_found refl refl (λ out text. refl)
