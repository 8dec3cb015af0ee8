-- ===== src/Sockets.antt =====
-- The socket calls that the network layer makes, `recv` and `send`, over an abstract state of the
-- operating system. Nothing of the kernel is defined here: a run takes a `Sockets` as a parameter,
-- and theorems name the documented behaviour that they rely on.
use pulse_core.Base.{ℕ, ◌≤◌, ◌<◌, ◌≡◌, ◌++◌, List, length, take, All}
use pulse_core.Codec.{IsByte}

-- The values of `errno` that the source tells apart.
pub data Errno : Type 0 where
  eintr eagain ewouldblock econnreset epipe enoent : Errno
  other_error : ℕ → Errno

pub data Received : Type 0 where
  received : List ℕ → Received
  recv_failed : Errno → Received

pub data Sent : Type 0 where
  sent : ℕ → Sent
  send_failed : Errno → Sent

-- `recv fd length w` and `send fd bytes w`; what is not taken from the bytes stays with the caller.
pub record Sockets (W : Type 0) : Type 0 where
  pub recv : ℕ → ℕ → W → Received × W
  pub send : ℕ → List ℕ → W → Sent × W

-- What `recv` may do to the bytes that a peer has sent and the process has not read yet: a
-- successful call takes some off the front, at most as many as asked for; a failed one takes none.
abbrev pub Receives : ℕ → List ℕ → Received → List ℕ → Type 0
Receives size before (received bytes) after =
    (before ≡ bytes ++ after) × (length bytes ≤ size) × All IsByte bytes
Receives size before (recv_failed e) after = before ≡ after

-- What `send` may do to the bytes that the peer will get: a call accepts a prefix, or nothing.
abbrev pub Sends : List ℕ → List ℕ → Sent → List ℕ → Type 0
Sends bytes before (sent n) after = (n ≤ length bytes) × (after ≡ before ++ take n bytes)
Sends bytes before (send_failed e) after = after ≡ before

-- A stream socket: `incoming` is what is still to be read, `outgoing` what has been accepted. Only
-- finitely many calls in a row are interrupted, as `patience` counts.
pub record IsStream {W : Type 0} (s : Sockets W) (fd : ℕ) : Type 0 where
  pub incoming : W → List ℕ
  pub outgoing : W → List ℕ
  pub patience : W → ℕ
  pub recv_takes :
      (n : ℕ) (w : W) → Receives n (incoming w) (s.recv fd n w).0 (incoming (s.recv fd n w).1)
  pub send_puts :
      (bytes : List ℕ) (w : W)
      → Sends bytes (outgoing w) (s.send fd bytes w).0 (outgoing (s.send fd bytes w).1)
  pub recv_keeps : (n : ℕ) (w : W) → outgoing (s.recv fd n w).1 ≡ outgoing w
  pub send_keeps : (bytes : List ℕ) (w : W) → incoming (s.send fd bytes w).1 ≡ incoming w
  pub recv_patience :
      (n : ℕ) (w : W)
      → (s.recv fd n w).0 ≡ recv_failed eintr
      → patience (s.recv fd n w).1 < patience w
  pub send_patience :
      (bytes : List ℕ) (w : W)
      → (s.send fd bytes w).0 ≡ send_failed eintr
      → patience (s.send fd bytes w).1 < patience w
  pub recv_calm : (n : ℕ) (w : W) → patience (s.recv fd n w).1 ≤ patience w
  pub send_calm : (bytes : List ℕ) (w : W) → patience (s.send fd bytes w).1 ≤ patience w
