-- ===== src/Gogohttp/Conn.antt =====
-- `net.Conn` as modules/gogohttp/server.go and response.go use it. What the network does is explicit:
-- the segments that will arrive, and which of the writes to come will fail.
use web_spa.Base.{
  ℕ, Bool, true, false, List, [], ◌∷◌, ◌++◌, Option, none, some, Bytes, leb, if◌then◌else◌, length,
  take, drop,
}

-- An error value: no head is registered, the connection failed, or the handler's closure gave up, for
-- a read of a file that failed or ended too early among others.
pub data Fault : Type 0 where
  invalid_head_id broken refused read_failed end_of_file : Fault

-- A segment that arrives; `failed` is an end of file, a reset or a timeout that comes with it.
pub record Arrival : Type 0 where
  pub bytes : Bytes
  pub failed : Bool

-- `faults` holds, for each write to come, the number of bytes that still go out if it fails; the
-- writes after the last of them succeed. The limits are those of the last calls of SetReadDeadline
-- and SetWriteDeadline, counted from the call, with `none` for no limit.
pub record Conn : Type 0 where
  pub incoming : List Arrival
  pub faults : List (Option ℕ)
  pub sent : Bytes
  pub read_limit : Option ℕ
  pub write_limit : Option ℕ

-- `Write`, and `net.Buffers.WriteTo` on the buffers joined.
abbrev pub write_next : Bytes → Conn → List (Option ℕ) → Conn × Option Fault
write_next b c [] = (record c { sent = c.sent ++ b }, none)
write_next b c (none ∷ fs) = (record c { sent = c.sent ++ b; faults = fs }, none)
write_next b c (some k ∷ fs) = (record c { sent = c.sent ++ take k b; faults = fs }, some broken)

unfoldable pub write : Bytes → Conn → Conn × Option Fault
write b c = write_next b c c.faults

-- `Read` into `room` bytes: the bytes, and whether an error came with them. A segment that does not
-- fit is read in parts, and after the last one the stream is at its end.
abbrev pub read_next : ℕ → Conn → List Arrival → Arrival × Conn
read_next room c [] = (record { bytes = []; failed = true }, c)
read_next room c (a ∷ later) =
    if leb (length a.bytes) room then (a, record c { incoming = later }) else (
      record { bytes = take room a.bytes; failed = false },
      record c { incoming = record { bytes = drop room a.bytes; failed = a.failed } ∷ later },
    )

unfoldable pub read : ℕ → Conn → Arrival × Conn
read room c = read_next room c c.incoming
