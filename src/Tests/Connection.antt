-- ===== src/Tests/Connection.antt =====
-- The theorems on reads, on a connection to which pings are sent.
use electrumz.Base.{ℕ, Bytes, drop, [], ◌∷◌, ◌++◌, ◌≡◌, refl, arith, some, false, inl, inr, All}
use electrumz.Base.Outcome.{done, fault, Exec, After, ◌>>=◌}
use electrumz.Connection.State.{World, Io, connect, end, on_io, on_conn}
use electrumz.Connection.Buffer.{append_buffer}
use electrumz.Connection.Buffer.Bounds.{IsHeld, Appended, append_buffer-Appended}
use electrumz.Connection.Dispatch.{handle_command}
use electrumz.Connection.Read.{cipher_size, handle_read, on_read}
use electrumz.Connection.Tls.{count, want_read, with_session, run_call, bio_recv}
use electrumz.Connection.Read.Chunks.{IsRequest}
use electrumz.Connection.Read.Memory.{IsTerminated, forget_held}
use electrumz.Connection.Read.Message.{handle_line, handle_read_drops}
use electrumz.Connection.Read.Overrun.{handle_read_overrun}
use electrumz.Connection.Read.Pipeline.{on_read_pipelined, run_lines, join}
use electrumz.Connection.Read.Plain.{settle, plain_flags}
use electrumz.Connection.Read.Reads.{Reads, Served, feed, feed_message}
use electrumz.Connection.Read.Decrypted.{room, on_read_decrypted}
use electrumz.Connection.Read.Session.{Sent, IsSent, observed, all_reads, feed-run_lines}
use electrumz.Connection.Read.Waiting.{in_tls, buffered, on_read_waiting}
use electrumz.Connection.Requests.{AnswersEach, feed-AnswersEach}
use electrumz.Connection.Sound.Session.{InWorld}
use electrumz.Connection.Sound.Callback.{IsLive, feed-connect-IsLive}
use electrumz.Tests.Libraries.{
  Value, small_json, no_tls, waiting_tls, record_tls, platform, strict_platform, length-zeros,
  libraries, new_io, new_world,
}

abbrev handler : Value → Exec (Io (Unit {0})) ℕ
handler = handle_command libraries

abbrev body : Bytes
body = b'}' ∷ []

abbrev opening : Bytes
opening = b'{' ∷ []

abbrev closing : Bytes
closing = b'}' ∷ b'\n' ∷ []

is_request : IsRequest b'{' body
is_request = record {
  not_http = ground arith;
  not_tls = ground arith;
  plain = ((refl, refl), ((refl, refl), tt));
}

new_IsHeld : IsHeld new_world.conn
new_IsHeld = record { fits = refl; inside = omega arith; capped = omega arith }

abbrev two_reads : Reads
two_reads = (opening, 0 ∷ []) ∷ (closing, []) ∷ []

feed_message_example :
    Served small_json no_tls platform handler length-zeros [] refl
      (b'{' ∷ body)
      new_world
      (feed small_json no_tls platform handler two_reads new_world)
feed_message_example =
    feed_message small_json no_tls platform handler length-zeros [] refl b'{' body opening (0 ∷ [])
      ((closing, []) ∷ []) new_world is_request (omega arith)
      ((omega arith, refl), ((omega arith, tt), tt)) new_IsHeld (inl (refl, refl)) refl refl

feed-connect-IsLive_example :
    After (InWorld (IsLive small_json no_tls platform handler length-zeros)) (
      feed small_json no_tls platform handler two_reads
        (record { conn = connect false; io = new_io }))
feed-connect-IsLive_example =
    feed-connect-IsLive small_json no_tls platform handler length-zeros false two_reads new_io

append_buffer-Appended_example :
    Appended new_world.conn closing (append_buffer platform 2 closing new_world.conn)
append_buffer-Appended_example =
    append_buffer-Appended platform length-zeros new_world.conn closing new_IsHeld

abbrev two_pings : Bytes
two_pings = join ((b'{' ∷ body) ∷ (b'{' ∷ body) ∷ [])

on_read_pipelined_example :
    on_read small_json no_tls platform handler 6 (two_pings ++ []) new_world
    ≡ (do
      parsed ←
          on_io (run_lines small_json no_tls platform handler ((b'{' ∷ body) ∷ (b'{' ∷ body) ∷ []))
      on_conn (λ c. done (end c) tt))
        (forget_held (settle new_world))
on_read_pipelined_example =
    on_read_pipelined small_json no_tls platform handler b'{' body (b'{' ∷ body) [] [] [] new_world
      refl is_request (((refl, refl), ((refl, refl), tt)), tt) tt new_IsHeld (inl (refl, refl)) refl

-- A connection that holds the byte "{".
abbrev holding : World (Unit {0}) (Unit {0})
holding = record new_world {
  conn = record new_world.conn { state = plain_flags; buf = b'{' ∷ []; offset = 1; len = 1 };
}

handle_read_overrun_example :
    handle_read small_json no_tls strict_platform handler 2 (closing ++ []) holding ≡ fault
handle_read_overrun_example =
    handle_read_overrun small_json no_tls strict_platform handler b'{' closing closing [] holding
      refl (omega arith) (omega arith) refl refl (ground arith)
      ((refl, refl), ((refl, refl), ((refl, refl), tt)))

-- Behind the newline comes a byte of the next request.
abbrev longer : Bytes
longer = b'}' ∷ b'\n' ∷ b'{' ∷ []

handle_read_drops_example :
    handle_read small_json no_tls platform handler 3 (longer ++ []) holding
    ≡ handle_line small_json no_tls platform handler (b'{' ∷ body) (forget_held (settle holding))
handle_read_drops_example =
    handle_read_drops small_json no_tls platform handler b'{' body longer [] (b'{' ∷ []) [] holding
      refl is_request (omega arith) (omega arith) tt
      (record { fits = refl; inside = omega arith; capped = omega arith }) (inr refl) refl

abbrev tls_world : World (Unit {0}) (Unit {0})
tls_world = record new_world { conn = record new_world.conn { ssl = some tt } }

waiting_read :
    with_session platform
      (λ t. waiting_tls.read t (
        cipher_size small_json waiting_tls platform handler
          (buffered 3 (opening ++ closing) tls_world).conn))
      (buffered 3 (opening ++ closing) tls_world)
    ≡ done (in_tls tls_world) (want_read, [])
unfolding run_call bio_recv cipher_size
waiting_read = refl

on_read_waiting_example :
    on_read small_json waiting_tls platform handler 3 (opening ++ closing) (in_tls tls_world)
    ≡ done (record (in_tls tls_world) { conn = end (in_tls tls_world).conn }) tt
on_read_waiting_example =
    on_read_waiting small_json waiting_tls platform handler 2 (opening ++ closing) [] tls_world
      (in_tls tls_world) waiting_read

-- The line "{}" as a record.
abbrev sealed : Bytes
sealed = 23 ∷ 3 ∷ b'{' ∷ closing

opened_read :
    with_session platform
      (λ t. record_tls.read t (room small_json record_tls platform handler 5 sealed tls_world))
      (buffered 5 sealed tls_world)
    ≡ done (in_tls tls_world) (count 3, b'{' ∷ closing)
unfolding run_call bio_recv cipher_size
opened_read = refl

opened_IsTerminated :
    IsTerminated
      (drop 3 (platform.malloc (room small_json record_tls platform handler 5 sealed tls_world)))
unfolding cipher_size
opened_IsTerminated = refl

on_read_decrypted_example :
    on_read small_json record_tls platform handler 5 sealed (in_tls tls_world)
    ≡ (do
      parsed ← on_io (run_lines small_json record_tls platform handler ((b'{' ∷ body) ∷ []))
      on_conn (λ c. done (end c) tt))
        (forget_held (in_tls tls_world))
on_read_decrypted_example =
    on_read_decrypted small_json record_tls platform handler 4 b'{' b'{' closing sealed closing []
      ((b'{' ∷ body) ∷ []) tls_world (in_tls tls_world) refl (ground arith)
      (((((refl, refl), ((refl, refl), tt))), omega arith), tt) opened_IsTerminated opened_read
      (record { fits = refl; inside = omega arith; capped = omega arith }) refl refl

-- Two requests, the first in two reads.
abbrev first_sent : Sent
first_sent = record {
  first = b'{';
  text = body;
  chunk = opening;
  junk = 0 ∷ [];
  reads = (closing, []) ∷ [];
}

abbrev second_sent : Sent
second_sent = record { first = b'{'; text = body; chunk = b'{' ∷ closing; junk = []; reads = [] }

both-IsSent : All IsSent (first_sent ∷ second_sent ∷ [])
both-IsSent = (
  record {
    request = is_request;
    fits = omega arith;
    are_reads = ((omega arith, refl), ((omega arith, tt), tt));
    whole = refl;
  },
  (
    record {
      request = is_request;
      fits = omega arith;
      are_reads = ((omega arith, tt), tt);
      whole = refl;
    },
    tt,
  ),
)

feed-run_lines_example :
    observed (
      feed small_json no_tls platform handler (all_reads (first_sent ∷ second_sent ∷ [])) new_world)
    ≡ run_lines small_json no_tls platform handler ((b'{' ∷ body) ∷ (b'{' ∷ body) ∷ []) new_io
feed-run_lines_example =
    feed-run_lines small_json no_tls platform handler length-zeros [] refl
      (first_sent ∷ second_sent ∷ []) new_world both-IsSent new_IsHeld (inl (refl, refl)) refl refl

feed-AnswersEach_example : AnswersEach 2 [] (
    observed (
      feed small_json no_tls platform handler
        (all_reads (first_sent ∷ second_sent ∷ []))
        new_world))
feed-AnswersEach_example =
    feed-AnswersEach libraries no_tls length-zeros [] refl (first_sent ∷ second_sent ∷ []) new_world
      both-IsSent new_IsHeld (inl (refl, refl)) refl refl
