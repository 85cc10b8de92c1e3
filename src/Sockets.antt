-- ===== src/Sockets.antt =====
-- The operating system's sockets, which are not part of the repository: the calls that src/protocol,
-- src/client and src/server make, as a record of functions on a state of the world.
pub mod Laws
use sqpkv.Prelude.{ℕ, Option, List}

-- read(2): -1, or the bytes that it stored, none of them at the end of the stream.
pub data ReadResult : Type 0 where
  read_failed : ReadResult
  received : List ℕ → ReadResult

-- write(2): -1, or how many bytes it took.
pub data WriteResult : Type 0 where
  write_failed : WriteResult
  wrote : ℕ → WriteResult

pub record Sockets : Type 1 where
  pub World : Type 0
  -- strerror(errno)
  pub errno_text : World → List ℕ
  -- read(fd, buf, count)
  pub read : World → ℕ → ℕ → ReadResult × World
  -- write(fd, buf, count), with the bytes
  pub write : World → ℕ → List ℕ → WriteResult × World
  -- close(fd)
  pub close : World → ℕ → World
