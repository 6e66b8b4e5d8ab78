-- ===== src/Connection/Sound/Reading.antt =====
-- The reading of lines and of TLS bytes, and the invariant.
use electrumz.Base.{
  ℕ, zero, suc, ◌+◌, ◌-◌, ◌≤◌, Bytes, ◌≡◌, refl, subst, sym, inl, inr, none, some, length, take,
  arith, ltb, Bool-cases, length-take, leb, leb→le,
}
use electrumz.Base.Outcome.{
  Outcome, done, threw, fault, Exec, pure, After, continue-After, if-After, ◌>>=◌,
}
use electrumz.Json.{JsonLib}
use electrumz.Connection.Memory.{Found, at, absent, overrun, source}
use electrumz.Connection.State.{Flags, Conn, Io, World, Platform, with_io, on_conn, on_io}
use electrumz.Connection.Buffer.{append_buffer}
use electrumz.Connection.Buffer.Bounds.{Appended, append_buffer-Appended}
use electrumz.Connection.Tls.{TlsLib, Code, count, want_read, want_write, failure, with_session}
use electrumz.Connection.Read.{
  Rest, complete, rejected, leftover, stuck, parse_lines, after_lines, write_bytes, http_response,
  serve_text, serve_block, with_held, cipher_size, after_ssl_read, read_ssl, read_body,
}
use electrumz.Connection.Write.{write_internal}
use electrumz.Connection.Sound.{IsSound}
use electrumz.Connection.Sound.Session.{
  IsSoundAt, InWorld, with_conn-After, with_io-After, with_session-IsSoundAt,
}

module _ {S : Type 0} (json : JsonLib) (tls : TlsLib) (platform : Platform)
    (handle : json.Json → Exec (Io S) ℕ)
    (length-malloc : (n : ℕ) → length (platform.malloc n) ≡ n) where
  open tls use {Session}

  -- `AppendBuffer` changes the buffer alone.
  Appended-IsSound :
      (c : Conn Session) (bytes : Bytes) (o : Outcome (Conn Session) ℕ)
      → IsSound c
      → Appended c bytes o
      → After IsSound o
  Appended-IsSound c bytes (done c' zero) v (same, _) = subst IsSound (sym same) v
  Appended-IsSound c bytes (done c' (suc r)) v (held, kept, _, h, z) =
      subst IsSound kept (record { held = rw kept held; known = v.known; session = v.session })
  Appended-IsSound c bytes _ v a = absurd a

  append_buffer-IsSound :
      (c : Conn Session) (bytes : Bytes)
      → IsSound c
      → After IsSound (append_buffer platform (length bytes) bytes c)
  append_buffer-IsSound c bytes v =
      Appended-IsSound c bytes _ v (append_buffer-Appended platform length-malloc c bytes v.held)

  -- So does a copy of the front of a block into it.
  copied-IsSound :
      (n : ℕ) (block : Bytes) (c : Conn Session)
      → IsSound c
      → After IsSound
          (elim (source n block) [ none ↦ fault | some bytes ↦ append_buffer platform n bytes c ])
  copied-IsSound n block c v = elim (Bool-cases (leb n (length block))) [
    | inl e ↦ rw e (
        subst (λ (m : ℕ). After IsSound (append_buffer platform m (take n block) c))
          (whole (leb→le n (length block) e)) (append_buffer-IsSound c (take n block) v))
    | inr e ↦ rw e tt
  ]
    where
      whole : n ≤ length block → length (take n block) ≡ n
      whole h = omega (arith, length-take n block)

  after_lines-IsSound :
      (total : ℕ) (r : Rest) (c : Conn Session)
      → IsSound c
      → After IsSound (after_lines json tls platform handle total r c)
  unfolding after_lines
  after_lines-IsSound total complete c v = v
  after_lines-IsSound total rejected c v = v
  after_lines-IsSound total (leftover ro rest) c v = copied-IsSound (total - ro) rest c v
  after_lines-IsSound total stuck c v = tt

  parse-After :
      (total : ℕ) (mem : Bytes) (nread : ℕ) (w : World Session S)
      → IsSound w.conn
      → After (InWorld IsSound) (
          (do
            rest ← on_io (parse_lines json tls platform handle (suc (length mem)) nread 0 mem)
            on_conn (after_lines json tls platform handle total rest))
            w)
  parse-After total mem nread w v =
      let io = parse_lines json tls platform handle (suc (length mem)) nread 0 mem w.io in
      continue-After {Q = InWorld IsSound} (with_io w io)
        (λ r. on_conn (after_lines json tls platform handle total r)) (with_io-After IsSound w io v)
        (λ w' h. h)
        (λ r w' h.
          with_conn-After IsSound w' (after_lines json tls platform handle total r w'.conn)
            (after_lines-IsSound total r w'.conn h))

  to_sound :
      {A : Type 0} (f : Flags) (o : Outcome (World Session S) A)
      → After (InWorld (IsSoundAt f)) o
      → After (InWorld IsSound) o
  to_sound f (done w a) h = h.sound
  to_sound f (threw w) h = h.sound
  to_sound f fault h = tt

  pub write_bytes-IsSound :
      (bytes : Bytes) (w : World Session S)
      → IsSound w.conn
      → After (InWorld IsSound) (write_bytes json tls platform handle bytes w)
  unfolding write_bytes
  write_bytes-IsSound bytes w v =
      if-After (InWorld IsSound) w.conn.state.ssl_normal _ _
        (λ _.
          continue-After {Q = InWorld IsSound} (with_session platform (λ t. tls.write t bytes) w)
            (λ r. pure r.0)
            (to_sound w.conn.state _ (
              with_session-IsSoundAt platform w.conn.state (λ t. tls.write t bytes) w
                (record { sound = v; flags = refl })))
            (λ w' h. h) (λ r w' h. h))
        (λ _.
          if-After (InWorld IsSound) w.conn.state.normal _ _
            (λ _.
              continue-After {Q = InWorld IsSound} (on_io (write_internal platform bytes) w)
                (λ n. pure (count n))
                (with_io-After IsSound w (write_internal platform bytes w.io) v) (λ w' h. h)
                (λ n w' h. h))
            (λ _. v))

  serve_text-IsSound :
      (nread total : ℕ) (mem : Bytes) (found : Found) (w : World Session S)
      → IsSound w.conn
      → After (InWorld IsSound) (serve_text json tls platform handle nread total mem found w)
  unfolding serve_text
  serve_text-IsSound nread total mem overrun w v = tt
  serve_text-IsSound nread total mem (at zero) w v =
      continue-After {Q = InWorld IsSound} (write_bytes json tls platform handle http_response w)
        (λ r. pure 1) (write_bytes-IsSound http_response w v) (λ w' h. h) (λ r w' h. h)
  serve_text-IsSound nread total mem (at (suc i)) w v = parse-After total mem nread w v
  serve_text-IsSound nread total mem absent w v = parse-After total mem nread w v

  serve_block-IsSound :
      (nread total : ℕ) (mem : Bytes) (w : World Session S)
      → IsSound w.conn
      → After (InWorld IsSound) (serve_block json tls platform handle nread total mem w)
  unfolding serve_block
  serve_block-IsSound nread total mem w v = serve_text-IsSound nread total _ _ w v

  with_held-IsSound :
      (nread len : ℕ) (mem : Bytes) (w : World Session S)
      → IsSound w.conn
      → After (InWorld IsSound) (with_held json tls platform handle nread len mem w)
  unfolding with_held
  with_held-IsSound nread len mem w v =
      if-After (InWorld IsSound) (ltb 0 w.conn.offset) _ _
        (λ _.
          serve_block-IsSound nread (len + w.conn.offset) _
            (record w { conn = record w.conn { offset = 0 } }) v')
        (λ _. serve_block-IsSound nread len mem w v)
    where
      v' : IsSound (record w.conn { offset = 0 })
      v' = record {
        held = record { fits = v.held.fits; inside = omega arith; capped = v.held.capped };
        known = v.known;
        session = v.session;
      }

  after_ssl_read-IsSound :
      (nread size : ℕ) (code : Code) (bytes : Bytes) (w : World Session S)
      → IsSound w.conn
      → After (InWorld IsSound) (after_ssl_read json tls platform handle nread size code bytes w)
  unfolding after_ssl_read append_buffer
  after_ssl_read-IsSound nread size (count zero) bytes w v = v
  after_ssl_read-IsSound nread size (count (suc n)) bytes w v =
      with_held-IsSound nread (suc n) _ w v
  after_ssl_read-IsSound nread size failure bytes w v = v
  after_ssl_read-IsSound nread size want_read bytes w v = v
  after_ssl_read-IsSound nread size want_write bytes w v =
      if-After (InWorld IsSound) (ltb 0 w.conn.offset) _ _ (λ _. tt)
        (λ _. serve_block-IsSound nread 0 (platform.malloc size) w v)

  read_ssl-IsSound :
      (nread : ℕ) (w : World Session S)
      → IsSound w.conn
      → After (InWorld IsSound) (read_ssl json tls platform handle nread w)
  unfolding read_ssl
  read_ssl-IsSound nread w v =
      let size = cipher_size json tls platform handle w.conn in
      continue-After {Q = InWorld IsSound} (with_session platform (λ t. tls.read t size) w)
        (λ r. after_ssl_read json tls platform handle nread size r.0 r.1)
        (to_sound w.conn.state _ (
          with_session-IsSoundAt platform w.conn.state (λ t. tls.read t size) w
            (record { sound = v; flags = refl })))
        (λ w' h. h) (λ r w' h. after_ssl_read-IsSound nread size r.0 r.1 w' h)

  pub read_body-IsSound :
      (nread : ℕ) (base : Bytes) (w : World Session S)
      → IsSound w.conn
      → After (InWorld IsSound) (read_body json tls platform handle nread base w)
  unfolding read_body
  read_body-IsSound nread base w v =
      if-After (InWorld IsSound) w.conn.state.ssl_normal _ _ (λ _. read_ssl-IsSound nread w v)
        (λ _. with_held-IsSound nread nread base w v)
