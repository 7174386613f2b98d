-- ===== src/Bcdump/Read/Proto/Whole.antt =====
-- The reader on a whole dump, from the header to the final zero.
use probabilistic_lua.Common.{[], ◌≡◌}
use probabilistic_lua.Common.Result.{Result, ok}
use probabilistic_lua.Bcdump.Types.{Build}
use probabilistic_lua.Bcdump.Read.Proto.{LexState}

-- The final zero ends the loop.
record Ended (b : Build) (ls : LexState) (r : Result LexState) : Type 0 where
  after : LexState
  run : r ≡ ok after
  no_bytes : after.p ≡ []
  same_stack : after.stack ≡ ls.stack
  same_name : after.chunkname ≡ ls.chunkname
