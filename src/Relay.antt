-- ===== src/Relay.antt =====
-- src/relay.rs: copying one direction of a connection. The two streams are parameters.
pub mod Copies
use gust.Prelude.{
  ℕ, zero, suc, ◌+◌, ◌%◌, ◌≤◌, ◌<◌, ◌≡◌, List, [], ◌∷◌, ◌++◌, Option, none, some, Result, ok, err,
  length,
}
use gust.Text.Utf8.{Bytes}
use gust.Stats.{two_64}
use gust.Netopt.Calls.{IoError}

-- The documented behaviour of `AsyncRead`: `remaining` is what the stream has yet to give. A read
-- gives at most as many bytes as the buffer has, and none only at the end of the stream or for an
-- empty buffer; one that fails reads nothing.
pub record Reader (R : Type 0) : Type 0 where
  pub read : ℕ → R → Result IoError Bytes × R
  pub remaining : R → Bytes
  pub read_size : (n : ℕ) (r s : R) (bs : Bytes) → read n r ≡ (ok bs, s) → length bs ≤ n
  pub read_next :
      (n : ℕ) (r s : R) (bs : Bytes) → read n r ≡ (ok bs, s) → remaining r ≡ bs ++ remaining s
  pub read_end : (n : ℕ) (r s : R) → 0 < n → read n r ≡ (ok [], s) → remaining r ≡ []
  pub read_failed :
      (n : ℕ) (e : IoError) (r s : R) → read n r ≡ (err e, s) → remaining s ≡ remaining r

-- The documented behaviour of `write_all`: `written` is what the stream was given. It writes the
-- whole buffer, or fails behind some of its bytes.
pub record Writer (W : Type 0) : Type 0 where
  pub write_all : Bytes → W → Result IoError (Unit {0}) × W
  pub written : W → Bytes
  pub wrote : (bs : Bytes) (w v : W) → write_all bs w ≡ (ok tt, v) → written v ≡ written w ++ bs
  pub wrote_part :
      (bs : Bytes) (e : IoError) (w v : W)
      → write_all bs w ≡ (err e, v)
      → (part rest : Bytes) × (bs ≡ part ++ rest) × (written v ≡ written w ++ part)

module _ {R W : Type 0} (reader : Reader R) (writer : Writer W) where
  -- what the loop does behind a write, and behind a read; `next` is the next round
  abbrev pub after_write :
      (W → Option (Result IoError ℕ × R × W))
      → R
      → Result IoError (Unit {0}) × W
      → Option (Result IoError ℕ × R × W)
  after_write next r (ok _, w) = next w
  after_write next r (err e, w) = some (err e, r, w)

  abbrev pub after_read :
      (ℕ → R → W → Option (Result IoError ℕ × R × W))
      → ℕ
      → W
      → Result IoError Bytes × R
      → Option (Result IoError ℕ × R × W)
  after_read next total w (err e, r) = some (err e, r, w)
  after_read next total w (ok [], r) = some (ok total, r, w)
  after_read next total w (ok (b ∷ bs), r) =
      after_write (next ((total + length (b ∷ bs)) % two_64) r) r (writer.write_all (b ∷ bs) w)

  -- `copy_one` from a total on, in at most so many rounds; the total has 64 bits and wraps around
  unfoldable pub copy_one : ℕ → ℕ → ℕ → R → W → Option (Result IoError ℕ × R × W)
  copy_one zero buf_size total r w = none
  copy_one (suc fuel) buf_size total r w =
      after_read (copy_one fuel buf_size) total w (reader.read buf_size r)

-- the direction whose copy ends first
pub data Direction : Type 0 where
  to_backend to_client : Direction

-- `r.map(|_| ())`
abbrev pub map_unit : Result IoError ℕ → Result IoError (Unit {0})
map_unit (ok n) = ok tt
map_unit (err e) = err e

-- `transport`, by what its two copies give: the first one to end counts, and the other is dropped.
abbrev pub transport : Direction → Result IoError ℕ → Result IoError ℕ → Result IoError (Unit {0})
transport to_backend up down = map_unit up
transport to_client up down = map_unit down
