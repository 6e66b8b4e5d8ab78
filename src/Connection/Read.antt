-- ===== src/Connection/Read.antt =====
-- `HandleRead`, the callback for bytes from the socket: the first read decides between plain text
-- and TLS, then the bytes are cut into lines, each a JSON request. The handler of requests is a
-- parameter here.
pub mod Scan
pub mod Memory
pub mod Plain
pub mod Chunks
pub mod Message
pub mod Reads
pub mod Pipeline
pub mod Overrun
pub mod Waiting
pub mod Decrypted
pub mod Session
use electrumz.Base.{
  ℕ, zero, suc, ◌+◌, ◌-◌, ◌%◌, Bytes, codes, Bool, true, false, ◌&&◌, Option, none, some, [], ◌∷◌,
  ◌++◌, length, take, drop, ltb, leb, ◌==◌, if◌then◌else◌,
}
use electrumz.Base.Outcome.{Outcome, done, threw, fault, Exec, pure, ◌>>=◌, ◌>>◌, continue}
use electrumz.Json.{JsonLib}
use electrumz.Connection.Memory.{strchr, strstr, source, Found, at, absent, overrun}
use electrumz.Connection.State.{Conn, Io, World, Platform, toggle_start, end, on_conn, on_io}
use electrumz.Connection.Buffer.{buff_len, append_buffer}
use electrumz.Connection.Write.{write_internal}
use electrumz.Connection.Tls.{
  TlsLib, Code, count, want_read, want_write, failure, with_session, init_tls_context,
  try_handshake,
}

-- JSONRPC_DELIM.
abbrev pub delim : ℕ
delim = b'\n'

-- `IsTLSClientHello`: the bytes of a `char` array, where those above 127 are negative.
unfoldable pub is_tls_client_hello : ℕ → Bytes → Bool
is_tls_client_hello nread (a ∷ b ∷ c ∷ rest) = ltb 4 nread && (a == 0x16 && b == 0x03) && leb c 0x03
is_tls_client_hello nread _ = false

abbrev pub http_response : Bytes
http_response =
    codes
      "HTTP/1.1 200 OK\r\nContent-Type: text/html\r\nContent-Length: 23\r\n\r\n<h2>ElectrumZ 1.0!</h2>"

-- How the loop over the lines ends: with nothing left to do, with an exception, with bytes behind
-- the last line (from `read_offset` on), or out of fuel.
pub data Rest : Type 0 where
  complete rejected : Rest
  leftover : ℕ → Bytes → Rest
  stuck : Rest

-- What the bytes of a read are, once TLS is taken off: a result to return, or a block and its count.
pub data Input : Type 0 where
  stop : ℕ → Input
  block : ℕ → Bytes → Input

module _ {S : Type 0} (json : JsonLib) (tls : TlsLib) (platform : Platform)
    (handle : json.Json → Exec (Io S) ℕ) where
  open json use {Json, parse}
  open tls use {Session, read, write}
  open platform use {malloc, behind}

  -- `catch (nlohmann::detail::exception ex)`.
  unfoldable pub caught : Outcome (Io S) ℕ → Outcome (Io S) Bool
  caught (done io r) = done io true
  caught (threw io) = done io false
  caught fault = fault

  -- One line: the `try` block. The answer is false where the code returns 0.
  unfoldable pub run_line : Bytes → Exec (Io S) Bool
  unfolding caught
  run_line line io = elim (parse line) [ none ↦ done io false | some req ↦ caught (handle req io) ]

  -- The loop at `parse_again`; `rest` is the memory from `readOffset` on.
  unfoldable pub parse_lines : ℕ → ℕ → ℕ → Bytes → Exec (Io S) Rest
  parse_lines zero nread read_offset rest io = done io stuck
  parse_lines (suc fuel) nread read_offset rest io = elim (strchr delim rest) [
    | overrun ↦ fault
    | absent ↦ done io (leftover read_offset rest)
    | at mlen ↦ continue (run_line (take mlen rest) io) (λ parsed io'.
        let again = parse_lines fuel nread (read_offset + mlen + 1) (drop (mlen + 1) rest) io' in
        if parsed
        then if ltb mlen (nread - 1) then again else done io' complete
        else done io' rejected)
  ]

  -- The return value after the loop, where `total` is `buf_len` before it.
  unfoldable pub after_lines : ℕ → Rest → Exec (Conn Session) ℕ
  after_lines total complete c = done c 1
  after_lines total rejected c = done c 0
  after_lines total (leftover read_offset rest) c = elim (source (total - read_offset) rest) [
    | none ↦ fault
    | some bytes ↦ append_buffer platform (total - read_offset) bytes c
  ]
  after_lines total stuck c = fault

  -- `Write`.
  unfoldable pub write_bytes : Bytes → Exec (World Session S) Code
  write_bytes buf w =
      if w.conn.state.ssl_normal
      then (do r ← with_session platform (λ t. write t buf); pure r.0) w
      else if w.conn.state.normal
      then (do n ← on_io (write_internal platform buf); pure (count n)) w
      else done w (count 0)

  unfoldable pub serve_text : ℕ → ℕ → Bytes → Found → Exec (World Session S) ℕ
  serve_text nread total mem overrun w = fault
  serve_text nread total mem (at zero) w = (do r ← write_bytes http_response; pure 1) w
  serve_text nread total mem (at (suc i)) w =
      (do
        rest ← on_io (parse_lines (suc (length mem)) nread 0 mem)
        on_conn (after_lines total rest))
        w
  serve_text nread total mem absent w =
      (do
        rest ← on_io (parse_lines (suc (length mem)) nread 0 mem)
        on_conn (after_lines total rest))
        w

  -- The first `total` bytes of the block at `buf_check` are the input. The searches know no end.
  unfoldable pub serve_block : ℕ → ℕ → Bytes → Exec (World Session S) ℕ
  unfolding after_lines serve_text
  serve_block nread total mem =
      serve_text nread total (mem ++ behind) (strstr (codes "GET") (mem ++ behind))

  -- Puts the held bytes in front, in a block of exactly that size.
  unfoldable pub with_held : ℕ → ℕ → Bytes → Exec (World Session S) ℕ
  with_held nread buf_len mem w =
      if ltb 0 w.conn.offset
      then serve_block nread (buf_len + w.conn.offset)
          (take w.conn.offset w.conn.buf ++ take buf_len mem)
          (record w { conn = record w.conn { offset = 0 } })
      else serve_block nread buf_len mem w

  -- The bytes behind TLS: `mbedtls_ssl_read` into a block of `size` bytes.
  unfoldable pub cipher_size : Conn Session → ℕ
  cipher_size c = c.ssl_buf_len + (buff_len - c.ssl_buf_len % buff_len)

  -- The count is negative for the last two codes, which `append_buffer` reads as 0. Behind held
  -- bytes the code then copies a negative number of bytes.
  unfoldable pub after_ssl_read : ℕ → ℕ → Code → Bytes → Exec (World Session S) ℕ
  after_ssl_read nread size (count zero) bytes w = done w 0
  after_ssl_read nread size (count (suc n)) bytes w =
      with_held nread (suc n) (bytes ++ drop (length bytes) (malloc size)) w
  after_ssl_read nread size failure bytes w = done w 0
  after_ssl_read nread size want_read bytes w = on_conn (append_buffer platform 0 (malloc size)) w
  after_ssl_read nread size want_write bytes w =
      if ltb 0 w.conn.offset then fault else serve_block nread 0 (malloc size) w

  unfoldable pub read_ssl : ℕ → Exec (World Session S) ℕ
  unfolding cipher_size after_ssl_read
  read_ssl nread w =
      let size = cipher_size w.conn in
      (do r ← with_session platform (λ t. read t size); after_ssl_read nread size r.0 r.1) w

  -- `assert(this->ssl_buf == nullptr)` and the three assignments behind it.
  unfoldable pub set_ssl_buf : ℕ → Bytes → Exec (World Session S) (Unit {0})
  set_ssl_buf nread base w = elim w.conn.ssl_buf [
    | some _ ↦ fault
    | none ↦
        done
          (record w {
            conn = record w.conn { ssl_buf = some base; ssl_buf_len = nread; ssl_buf_offset = 0 };
          })
          tt
  ]

  unfoldable pub read_body : ℕ → Bytes → Exec (World Session S) ℕ
  read_body nread base w =
      if w.conn.state.ssl_normal then read_ssl nread w else with_held nread nread base w

  -- The first read: is it a TLS client hello?
  unfoldable pub first_read : ℕ → Bytes → Exec (World Session S) ℕ
  unfolding read_body
  first_read nread base w =
      let c = record w.conn { state = toggle_start w.conn.state } in
      if is_tls_client_hello nread base
      then (if c.ssl_config
          then (do
            set_ssl_buf nread base
            on_conn (λ c'. done (init_tls_context tls c') tt)
            try_handshake tls platform)
              (record w { conn = c })
          else done (record w { conn = c }) 0)
      else read_body nread base
          (record w { conn = record c { state = record c.state { normal = true } } })

  unfoldable pub later_read : ℕ → Bytes → Exec (World Session S) ℕ
  unfolding read_body
  later_read nread base w =
      if w.conn.state.ssl_handshake then try_handshake tls platform w else read_body nread base w

  -- `HandleRead`; `base` is the whole block at `buf->base`, of which libuv has filled `nread` bytes.
  -- A count that is not positive is 0 here.
  unfoldable pub handle_read : ℕ → Bytes → Exec (World Session S) ℕ
  unfolding first_read later_read
  handle_read zero base w = done w 0
  handle_read (suc n) base w =
      (do
        if w.conn.state.ssl_normal then set_ssl_buf (suc n) base else pure tt
        (λ w'.
            if w'.conn.state.start then first_read (suc n) base w' else later_read (suc n) base w'))
        w

  -- The callback that the constructor passes to `uv_read_start`.
  unfoldable pub on_read : ℕ → Bytes → Exec (World Session S) (Unit {0})
  on_read nread base = do
    alive ← handle_read nread base
    if alive == 0 then on_conn (λ c. done (end c) tt) else pure tt
