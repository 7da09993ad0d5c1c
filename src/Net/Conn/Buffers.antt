-- ===== src/Net/Conn/Buffers.antt =====
-- The two buffers of a connection, and a frame on the wire.
use ta_engine.Common.{ℕ, ◌+◌, ◌%◌, ◌≤◌, ◌≡◌, List, ◌∷◌, ◌++◌, append_assoc, length, drop}
use ta_engine.Net.Wire.{◌>>◌, put_u8, put_raw}
use ta_engine.Net.Wire.RoundTrip.{le_bytes, put_u32-le_bytes}
use ta_engine.Net.Conn.{Frame, Conn, put_frame}

-- The offsets lie in their buffers.
pub record IsConn (c : Conn) : Type 0 where
  pub rx : c.rx_off ≤ length c.rx_buf
  pub tx : c.tx_off ≤ length c.tx_buf

-- What has arrived and is not read yet; what was sent and is not on the wire yet.
abbrev pub unread : Conn → List ℕ
unread c = drop c.rx_off c.rx_buf

abbrev pub unsent : Conn → List ℕ
unsent c = drop c.tx_off c.tx_buf

-- A frame on the wire.
unfoldable pub frame_bytes : Frame → List ℕ
frame_bytes f = le_bytes 4 (length f.payload + 1) ++ f.kind % 256 ∷ f.payload

pub put_frame-frame_bytes : (f : Frame) (b : List ℕ) → put_frame f b ≡ b ++ frame_bytes f
unfolding put_frame frame_bytes ◌>>◌ put_u8 put_raw
put_frame-frame_bytes f b = rw put_u32-le_bytes (simp append_assoc)
