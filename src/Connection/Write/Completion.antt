-- ===== src/Connection/Write/Completion.antt =====
-- The completion of a write.
use electrumz.Base.{Bytes, ◌≡◌, refl}
use electrumz.Base.Outcome.{fault}
use electrumz.Connection.Write.{write_request, handle_write}

-- The completion of any write looks for the second entry of the request behind the end of the two
-- that `WriteInternal` makes, so it is undefined behaviour, whatever was written.
handle_write-write_request :
    {S : Type 0} (text : Bytes) (s : S) → handle_write (write_request text) s ≡ fault
unfolding handle_write
handle_write-write_request text s = refl
