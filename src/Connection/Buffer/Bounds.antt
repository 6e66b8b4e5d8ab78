-- ===== src/Connection/Buffer/Bounds.antt =====
-- The held bytes, their block and its size (`AppendBuffer`).
use electrumz.Base.{
  ℕ, zero, suc, ◌+◌, ◌≤◌, ◌<◌, ◌%◌, Bytes, ◌≡◌, refl, ◌∙◌, ap, sym, [], ◌∷◌, ◌++◌, ◌⊎◌, subst, inl,
  inr, append_assoc, length, length-append, length-take, length-drop, take-append_front,
  take-append_le, take_all, arith, take, drop, Bool-cases, ltb, le→leb,
}
use electrumz.Base.Outcome.{Outcome, done}
use electrumz.Connection.State.{Conn, Platform}
use electrumz.Connection.Buffer.{buff_len, max_buffer, store, grow, append_buffer}

-- The largest block that `grow` can ask for: 16383 bytes and the remainder 1023.
abbrev pub max_len : ℕ
max_len = 17406

pub record IsHeld {T : Type 0} (c : Conn T) : Type 0 where
  pub fits : length c.buf ≡ c.len
  pub inside : c.offset ≤ c.len
  pub capped : c.len ≤ max_len

abbrev pub held : {T : Type 0} → Conn T → Bytes
held c = take c.offset c.buf

-- What `append_buffer` leaves: nothing changed and the reason, or `bytes` behind what was held.
abbrev pub Appended : {T : Type 0} → Conn T → Bytes → Outcome (Conn T) ℕ → Type 0
Appended c bytes (done c' zero) =
    (c' ≡ c)
    × ((length bytes ≡ 0)
        ⊎ ((c.len < c.offset + length bytes) × (max_buffer ≤ c.offset + length bytes)))
Appended c bytes (done c' (suc r)) =
    IsHeld c'
    × (record c { buf = c'.buf; offset = c'.offset; len = c'.len } ≡ c')
    × (c'.offset ≡ c.offset + length bytes)
    × (held c' ≡ held c ++ bytes)
    × (r ≡ 0)
Appended c bytes _ = ⊥

take-append-append :
    (i : ℕ) (block bytes rest : Bytes)
    → i ≤ length block
    → take (i + length bytes) (take i block ++ (bytes ++ rest)) ≡ take i block ++ bytes
take-append-append i block bytes rest h =
    let front = take i block ++ bytes in
    let e : i + length bytes ≡ length front =
      omega (arith, length-append (take i block) bytes, length-take i block) in
    rw e (rw (← append_assoc) (take-append_front front rest))

module _ {T : Type 0} (platform : Platform)
    (length-malloc : (n : ℕ) → length (platform.malloc n) ≡ n) where
  store_lem :
      (c : Conn T) (bytes : Bytes)
      → IsHeld c
      → c.offset + length bytes ≤ c.len
      → store platform (length bytes) bytes c
        ≡ done
            (record c {
              buf = take c.offset c.buf ++ (bytes ++ drop (c.offset + length bytes) c.buf);
              offset = c.offset + length bytes;
            })
            1
  unfolding store
  store_lem c bytes v h = rw (le→leb (c.offset + length bytes) (length c.buf) (omega arith), store)

  store-Appended :
      (c : Conn T) (bytes : Bytes)
      → IsHeld c
      → c.offset + length bytes ≤ c.len
      → IsHeld (record c {
        buf = take c.offset c.buf ++ (bytes ++ drop (c.offset + length bytes) c.buf);
        offset = c.offset + length bytes;
      })
  store-Appended c bytes v h =
      let rest = drop (c.offset + length bytes) c.buf in
      record {
        fits = omega (
          arith,
          length-append (take c.offset c.buf) (bytes ++ rest),
          length-append bytes rest,
          length-take c.offset c.buf,
          length-drop (c.offset + length bytes) c.buf,
        );
        inside = h;
        capped = v.capped;
      }

  store-leaves :
      (c : Conn T) (bytes : Bytes)
      → IsHeld c
      → c.offset + length bytes ≤ c.len
      → Appended c bytes (store platform (length bytes) bytes c)
  store-leaves c bytes v h = subst (Appended c bytes) (sym (store_lem c bytes v h)) (
    store-Appended c bytes v h,
    refl,
    refl,
    take-append-append c.offset c.buf bytes _ (omega arith),
    refl,
  )

  grow-IsHeld :
      (c : Conn T) (m : ℕ)
      → IsHeld c
      → c.len ≤ m
      → m ≤ max_buffer
      → IsHeld (grow platform m c)
        × (held (grow platform m c) ≡ held c)
        × (m ≤ (grow platform m c).len)
  unfolding grow
  grow-IsHeld c m v h k =
      let size = m + m % buff_len in
      let old = take size c.buf in
      let all = take_all size c.buf (omega arith) in
      (
        record {
          fits = omega (
            arith,
            length-append old (drop (length c.buf) (platform.malloc size)),
            length-take size c.buf,
            length-drop (length c.buf) (platform.malloc size),
            length-malloc size,
          );
          inside = omega arith;
          capped = omega arith;
        },
        rw all (take-append_le c.offset c.buf _ (omega arith)),
        omega arith,
      )

  grow-leaves :
      (c : Conn T) (bytes : Bytes)
      → IsHeld c
      → c.len < length bytes + c.offset
      → c.offset + length bytes + 1 ≤ max_buffer
      → Appended c bytes
          (store platform (length bytes) bytes (grow platform (c.offset + length bytes + 1) c))
  grow-leaves c bytes v h k =
      let g = grow platform (c.offset + length bytes + 1) c in
      let (v', same, room) = grow-IsHeld c (c.offset + length bytes + 1) v (omega arith) k in
      let moved : g.offset ≡ c.offset = unfold grow in refl in
      let h' : g.offset + length bytes ≤ g.len = omega arith in
      subst (Appended c bytes) (sym (store_lem g bytes v' h')) (
        store-Appended g bytes v' h',
        unfold grow in refl,
        omega arith,
        take-append-append g.offset g.buf bytes _ (omega arith)
            ∙ ap (λ (b : Bytes). b ++ bytes) same,
        refl,
      )

  -- On a connection whose held bytes are inside a block of the recorded size, at most
  -- 17,406, AppendBuffer puts the bytes behind those that are held and keeps that, or
  -- changes nothing because there are no bytes or they need a larger block and come to
  -- 16,384 with those held. It never writes outside its block, provided `malloc` gives
  -- blocks of the size asked for.
  pub append_buffer-Appended :
      (c : Conn T) (bytes : Bytes)
      → IsHeld c
      → Appended c bytes (append_buffer platform (length bytes) bytes c)
  unfolding append_buffer
  append_buffer-Appended c [] v = (refl, inl refl)
  append_buffer-Appended c (x ∷ xs) v = elim (Bool-cases (ltb c.len (length (x ∷ xs) + c.offset))) [
    | inr fits ↦ rw (fits, Appended) (store-leaves c (x ∷ xs) v (ground arith))
    | inl short ↦ elim (Bool-cases (ltb max_buffer (c.offset + length (x ∷ xs) + 1))) [
      | inl large ↦ rw (short, large, Appended) (refl, inr (ground arith, ground arith))
      | inr small ↦
          rw (short, small, Appended) (grow-leaves c (x ∷ xs) v (ground arith) (ground arith))
    ]
  ]

  -- What fits is appended.
  pub append_buffer-fits :
      (c : Conn T) (bytes : Bytes)
      → IsHeld c
      → 0 < length bytes
      → c.offset + length bytes < max_buffer
      → (c' : Conn T) × (append_buffer platform (length bytes) bytes c ≡ done c' 1)
        × IsHeld c'
        × (record c { buf = c'.buf; offset = c'.offset; len = c'.len } ≡ c')
        × (held c' ≡ held c ++ bytes)
  append_buffer-fits c bytes v pos fits =
      extract (append_buffer platform (length bytes) bytes c) refl
        (append_buffer-Appended c bytes v)
    where
      extract :
          (o : Outcome (Conn T) ℕ)
          → append_buffer platform (length bytes) bytes c ≡ o
          → Appended c bytes o
          → (c' : Conn T) × (append_buffer platform (length bytes) bytes c ≡ done c' 1)
            × IsHeld c'
            × (record c { buf = c'.buf; offset = c'.offset; len = c'.len } ≡ c')
            × (held c' ≡ held c ++ bytes)
      extract (done c' zero) e a = absurd (omega arith)
      extract (done c' (suc r)) e (v', kept, at, h, z) =
          (c', e ∙ ap (λ (n : ℕ). done c' (suc n)) z, v', kept, h)
      extract _ e a = absurd a
