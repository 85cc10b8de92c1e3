-- ===== src/Sockets/Laws.antt =====
-- What the program relies on from sockets.
use sqpkv.Prelude.{ℕ, ◌≡◌, List, ◌++◌, take, drop}
use sqpkv.Sockets.{Sockets, ReadResult, received, WriteResult, wrote}

-- Stream sockets that take every write whole, as blocking sockets do, and keep the order of bytes.
pub record WriteLaws (S : Sockets) : Type 0 where
  -- all bytes that were written to a socket
  pub sent : Sockets.World S → ℕ → List ℕ
  pub sent-write :
      (w : Sockets.World S) (fd : ℕ) (bs : List ℕ) (n : ℕ) (w' : Sockets.World S)
      → S.write w fd bs ≡ (wrote n, w')
      → sent w' fd ≡ sent w fd ++ bs

-- A socket on which every byte of the stream has arrived, and whose peer has closed it behind them: a
-- read takes as many of the bytes as it has room for.
pub record Arrived (S : Sockets) (fd : ℕ) : Type 0 where
  pub pending : Sockets.World S → List ℕ
  pub reads :
      (w : Sockets.World S) (n : ℕ)
      → (w' : Sockets.World S) × (S.read w fd n ≡ (received (take n (pending w)), w'))
        × (pending w' ≡ drop n (pending w))

-- Two sockets that leave each other alone: bytes arrive on `from`, and `to` takes writes whole.
pub record Pipe (S : Sockets) (from to : ℕ) : Type 0 where
  pub arrived : Arrived S from
  pub writes : WriteLaws S
  pub pending-write :
      (w : Sockets.World S) (bs : List ℕ) (r : WriteResult) (w' : Sockets.World S)
      → S.write w to bs ≡ (r, w')
      → arrived.pending w' ≡ arrived.pending w
  pub sent-read :
      (w : Sockets.World S) (n : ℕ) (r : ReadResult) (w' : Sockets.World S)
      → S.read w from n ≡ (r, w')
      → writes.sent w' to ≡ writes.sent w to
