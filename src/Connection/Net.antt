-- ===== src/Connection/Net.antt =====
-- What connections call of the packages net, compress/flate, snappy and gorilla/websocket, as
-- outcomes. The first argument counts the calls that one connection has made, so an outcome may
-- depend on all that came before.
use getty.Common.{ℕ, ◌≤◌, ◌≡◌, Option, none, List, [], ◌∷◌, ◌++◌, length}
use getty.Errors.{IoError}

abbrev pub Bytes : Type 0
Bytes = List ℕ

abbrev pub concat : List Bytes → Bytes
concat [] = []
concat (p ∷ ps) = p ++ concat ps

-- What a write may be handed: `[]byte`, `[][]byte`, a `UDPContext` (with `none` for a `Pkg` that is
-- no `[]byte` and for a nil address), or a value of another type.
pub data Pkg : Type 0 where
  bytes : Bytes → Pkg
  batch : List Bytes → Pkg
  udp_context : Option Bytes → Option ℕ → Pkg
  other : Pkg

pub record Net : Type 0 where
  -- `net.Conn.Write`, `net.Buffers.WriteTo`, `SetWriteDeadline`.
  pub write : ℕ → Bytes → ℕ × Option IoError
  pub write_to : ℕ → List Bytes → ℕ × Option IoError
  pub set_write_deadline : ℕ → Option IoError
  -- `Write` and `Flush` of a flate or snappy writer.
  pub encode : ℕ → Bytes → ℕ × Option IoError
  pub flush : ℕ → Option IoError
  -- `net.UDPConn.WriteMsgUDP` and `websocket.Conn.WriteMessage`.
  pub write_msg_udp : ℕ → Bytes → Option ℕ → ℕ × Option IoError
  pub write_message : ℕ → Bytes → Option IoError
  -- `Read` of a `net.Conn` and of a flate or snappy reader, into a buffer of the given size.
  pub set_read_deadline : ℕ → Option IoError
  pub read : ℕ → ℕ → Bytes × Option IoError
  pub decode : ℕ → ℕ → Bytes × Option IoError
  -- `net.UDPConn.ReadFromUDP`: the whole datagram that arrives, its sender, and an error.
  pub read_from_udp : ℕ → Bytes × Option ℕ × Option IoError
  -- `websocket.Conn.NextReader`, and what its reader gives before it ends: with an error, or at the end.
  pub next_reader : ℕ → Option IoError
  pub read_message : ℕ → Bytes × Option IoError

-- The contract of `io.Writer`: a count within the data, which is all of it where no error is returned.
pub record IsWriter (net : Net) : Type 0 where
  pub write-le : (k : ℕ) (p : Bytes) → (net.write k p).0 ≤ length p
  pub write_all : (k : ℕ) (p : Bytes) → (net.write k p).1 ≡ none → (net.write k p).0 ≡ length p
  pub write_to-le : (k : ℕ) (ps : List Bytes) → (net.write_to k ps).0 ≤ length (concat ps)
  pub write_to_all :
      (k : ℕ) (ps : List Bytes)
      → (net.write_to k ps).1 ≡ none
      → (net.write_to k ps).0 ≡ length (concat ps)
  pub encode_all : (k : ℕ) (p : Bytes) → (net.encode k p).1 ≡ none → (net.encode k p).0 ≡ length p
