-- ===== src/Connection/Dispatch/Steps.antt =====
-- The steps that the handlers of requests share, and what they write.
use Prim.Native.String.{String}
use electrumz.Base.{
  ℕ, Bytes, Bool, true, false, Option, none, some, List, ◌∷◌, ◌≡◌, refl, ℤ, if◌then◌else◌,
}
use electrumz.Base.Outcome.{Outcome, done, threw, fault, Exec, pure, After, continue, ◌>>=◌, ◌>>◌}
use electrumz.Commands.{command_success}
use electrumz.Commands.Types.{Response}
use electrumz.Connection.State.{Io, Platform}
use electrumz.Connection.Write.{write_internal, handle_write}
use electrumz.Connection.Dispatch.{
  Libraries, lift, on_services, reply, reply_error, write_json, read_number,
}

-- Nothing was written.
abbrev pub Quiet : {S : Type 0} → List Bytes → Io S → Type 0
Quiet out io = io.out ≡ out

-- One text was written if the step returns, and nothing if it throws.
abbrev pub Answered : {S : Type 0} → List Bytes → Outcome (Io S) ℕ → Type 0
Answered out (done io r) = (text : Bytes) × (io.out ≡ text ∷ out)
Answered out (threw io) = io.out ≡ out
Answered out fault = Unit

module _ {S : Type 0} where
  pub then-Answered :
      {A : Type 0} (out : List Bytes) (o : Outcome (Io S) A) (f : A → Exec (Io S) ℕ)
      → After (Quiet out) o
      → ((a : A) (io : Io S) → io.out ≡ out → Answered out (f a io))
      → Answered out (continue o f)
  then-Answered out (done io a) f h n = n a io h
  then-Answered out (threw io) f h n = h
  then-Answered out fault f h n = tt

  pub if-Answered :
      (out : List Bytes) (b : Bool) (o r : Outcome (Io S) ℕ)
      → Answered out o
      → Answered out r
      → Answered out (if b then o else r)
  if-Answered out true o r h k = h
  if-Answered out false o r h k = k

  pub returns-Answered :
      (out : List Bytes) (o : Outcome (Io S) ℕ)
      → Answered out o
      → Answered out (continue o (λ _. pure 0))
  returns-Answered out (done io r) h = h
  returns-Answered out (threw io) h = h
  returns-Answered out fault h = h

  pub write_internal-Answered :
      (platform : Platform) (text : Bytes) (io : Io S)
      → Answered io.out (write_internal platform text io)
  unfolding write_internal handle_write
  write_internal-Answered platform text io =
      if-Answered io.out (platform.uv_write_accepts io.out text) _ _ (text, refl) tt

module _ (libs : Libraries) where
  open libs use {json, bitcoin, fmt, platform, backend}
  open json use {Json, Float}
  open backend use {Services}

  pub reply_error-Answered :
      (id : ℤ) (msg : String) (code : ℤ) (io : Io Services)
      → Answered io.out (reply_error libs id msg code io)
  unfolding reply_error write_json
  reply_error-Answered id msg code io = write_internal-Answered platform _ io

  pub lift-Quiet :
      {A : Type 0} (o : Option A) (io : Io Services) → After (Quiet io.out) (lift libs o io)
  lift-Quiet none io = refl
  lift-Quiet (some a) io = refl

  pub on_services-Quiet :
      {A : Type 0} (m : Exec Services A) (io : Io Services)
      → After (Quiet io.out) (on_services libs m io)
  on_services-Quiet {A = A} m io = by_end (m io.services)
    where
      by_end :
          (o : Outcome Services A)
          → After (Quiet io.out) (elim o [
            | done s a ↦ done (record io { services = s }) a
            | threw s ↦ threw (record io { services = s })
            | fault ↦ fault
          ])
      by_end (done s a) = refl
      by_end (threw s) = refl
      by_end fault = tt

  -- Written after a step of the JSON library, at a state that has written `out`.
  pub lift-Answered :
      {A : Type 0} (o : Option A) (f : A → Exec (Io Services) ℕ) (io : Io Services)
      → ((a : A) → Answered io.out (f a io))
      → Answered io.out ((do a ← lift libs o; f a) io)
  lift-Answered none f io n = refl
  lift-Answered (some a) f io n = n a

  pub reply-Answered :
      (id : ℤ) (rsp : Response Float) (io : Io Services) → Answered io.out (reply libs id rsp io)
  unfolding reply write_json
  reply-Answered id rsp io =
      lift-Answered (command_success json bitcoin fmt id rsp) (write_json libs) io
        (λ j. write_internal-Answered platform _ io)

  pub read_number-Answered :
      (p : Json) (f : Exec (Io Services) ℕ) (io : Io Services)
      → Answered io.out (f io)
      → Answered io.out ((do read_number libs p; f) io)
  unfolding read_number
  read_number-Answered p f io h = by_kind (json.is_number p)
    where
      by_kind :
          (b : Bool)
          → Answered io.out (
              continue
                ((if b then (do n ← lift libs (json.get_uint p); pure tt) else pure tt) io)
                (λ _. f))
      by_kind false = h
      by_kind true = by_value (json.get_uint p)
        where
          by_value :
              (o : Option ℕ)
              → Answered io.out (continue ((do n ← lift libs o; pure tt) io) (λ _. f))
          by_value none = refl
          by_value (some n) = h
