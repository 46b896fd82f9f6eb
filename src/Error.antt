-- ===== src/Error.antt =====
-- `Error` of xtra/src/lib.rs.
use Prim.Native.String.{String}

pub data Error : Type 0 where
  disconnected : Error
  interrupted : Error

-- `Display for Error`
unfoldable pub fmt : Error → String
fmt disconnected = "Actor address disconnected"
fmt interrupted = "Message request interrupted"
