-- ===== src/Socks5/Stream.antt =====
-- The stream that the handshake of src/socks5.rs runs over: what the peer has sent and is not read,
-- what was written, and how many more bytes the peer takes before its end breaks.
pub mod Moves
use gust.Prelude.{
  ℕ, zero, suc, ◌-◌, Bool, true, false, [], ◌∷◌, ◌++◌, Option, none, some, Result, ok, err, leb,
  if◌then◌else◌, length, take, drop,
}
use gust.Text.Utf8.{Bytes}

pub record Stream : Type 0 where
  pub incoming : Bytes
  pub sent : Bytes
  pub room : ℕ

-- The errors, with what their messages show.
pub data Error : Type 0 where
  unexpected_eof broken_pipe : Error
  bad_method_version : ℕ → Error
  auth_not_configured methods_rejected : Error
  unsupported_method : ℕ → Error
  credentials_too_long : Error
  auth_failed : ℕ → Error
  hostname_too_long : Error
  bad_reply_version : ℕ → Error
  connect_failed : ℕ → Error
  unknown_atyp : ℕ → Error

-- A step on the stream: what it returns, and the stream behind it.
abbrev pub Io {ℓ} : Type ℓ → Type ℓ
Io A = Stream → Result Error A × Stream

abbrev pub and_then {ℓ κ} :
    {A : Type ℓ} {B : Type κ} → Result Error A × Stream → (A → Io B) → Result Error B × Stream
and_then (ok a, s) f = f a s
and_then (err e, s) f = (err e, s)

infixl 5 ◌>>=◌ ◌>>◌
abbrev pub ◌>>=◌ {ℓ κ} : {A : Type ℓ} {B : Type κ} → Io A → (A → Io B) → Io B
◌>>=◌ m f s = and_then (m s) f

abbrev pub ◌>>◌ {ℓ} : {B : Type ℓ} → Io (Unit {0}) → Io B → Io B
m >> k = m >>= λ _. k

abbrev pub done {ℓ} : {A : Type ℓ} → A → Io A
done a s = (ok a, s)

abbrev pub fail {ℓ} : {A : Type ℓ} → Error → Io A
fail e s = (err e, s)

abbrev pub fail_if : Bool → Error → Io (Unit {0})
fail_if b e = if b then fail e else done tt

-- `write_all(bs)`: a peer that breaks off has taken the first bytes.
unfoldable pub write_all : Bytes → Io (Unit {0})
write_all bs s =
    if leb (length bs) s.room
    then (ok tt, record s { sent = s.sent ++ bs; room = s.room - length bs })
    else (err broken_pipe, record s { sent = s.sent ++ take s.room bs; room = 0 })

-- `read_exact` into a buffer of `n` bytes: at the end of the stream what was there is consumed.
unfoldable pub read_exact : ℕ → Io Bytes
read_exact n s =
    if leb n (length s.incoming)
    then (ok (take n s.incoming), record s { incoming = drop n s.incoming })
    else (err unexpected_eof, record s { incoming = [] })
