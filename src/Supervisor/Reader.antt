-- ===== src/Supervisor/Reader.antt =====
-- crates/quip-dashboard/src/supervisor.rs: `Logs::read`, which cuts the output of a child into lines.
-- What the reads of the pipe return is an argument, and so is what a line and each counter do.
pub mod Segments
use dashboard_quip_network.Prelude.{
  ℕ, ◌+◌, Bool, true, false, ◌&&◌, not, List, [], ◌∷◌, ◌++◌, length, ◌==◌, if◌then◌else◌,
}

abbrev pub max_line : ℕ
max_line = 65536

-- What one `pipe.read` returns: bytes, none of them at the end of the stream, or an error.
pub data PipeRead : Type 0 where
  received : List ℕ → PipeRead
  failed : PipeRead

-- What the reader does besides: `self.line`, and one more on the counters `oversized_lines` and
-- `read_errors`.
pub record Sink {ℓ} (S : Type ℓ) : Type ℓ where
  pub line : List ℕ → S → S
  pub oversized_line : S → S
  pub read_error : S → S

-- The locals `line` and `oversized` of `read`.
pub record LineBuffer : Type 0 where
  pub line : List ℕ
  pub oversized : Bool

abbrev pub new_buffer : LineBuffer
new_buffer = record { line = []; oversized = false }

module _ {ℓ} {S : Type ℓ} (sink : Sink S) where
  -- The body of `for &byte`.
  unfoldable pub read_byte : ℕ → LineBuffer × S → LineBuffer × S
  read_byte byte (buffer, s) =
      if byte == 10
      then (new_buffer, if buffer.oversized then s else sink.line buffer.line s)
      else if buffer.oversized
      then (buffer, s)
      else if length buffer.line == max_line
      then (record { line = []; oversized = true }, sink.oversized_line s)
      else (record { line = buffer.line ++ byte ∷ []; oversized = false }, s)

  unfoldable pub read_bytes : List ℕ → LineBuffer × S → LineBuffer × S
  read_bytes [] state = state
  read_bytes (byte ∷ bytes) state = read_bytes bytes (read_byte byte state)

  -- The outer loop: it ends at an empty read or an error.
  unfoldable pub read_chunks : List PipeRead → LineBuffer × S → LineBuffer × S
  read_chunks [] state = state
  read_chunks (failed ∷ rest) (buffer, s) = (buffer, sink.read_error s)
  read_chunks (received [] ∷ rest) state = state
  read_chunks (received (byte ∷ bytes) ∷ rest) state =
      read_chunks rest (read_bytes (byte ∷ bytes) state)

  abbrev is_empty : List ℕ → Bool
  is_empty [] = true
  is_empty (b ∷ bs) = false

  -- After the loops: the last line has no newline.
  unfoldable pub flush : LineBuffer × S → S
  flush (buffer, s) =
      if not buffer.oversized && not (is_empty buffer.line) then sink.line buffer.line s else s

  unfoldable pub read : List PipeRead → S → S
  read reads s = flush (read_chunks reads (new_buffer, s))
