-- ===== src/Netopt/Calls.antt =====
-- src/netopt.rs: what the dialer asks of the kernel. The kernel is a parameter, which answers a call
-- by what was called before. The model is that of Linux.
use gust.Prelude.{ℕ, Bool, List, Option, none, some, Result, ok, err, if◌then◌else◌}
use gust.Text.{Text}
use gust.Nat.Nftables.{IpAddr}

-- `SocketAddr`
pub record SocketAddr : Type 0 where
  pub ip : IpAddr
  pub port : ℕ

-- The kinds of `io::Error` that the code looks at or makes.
pub data ErrorKind : Type 0 where
  would_block timed_out other : ErrorKind

pub record IoError : Type 0 where
  pub kind : ErrorKind
  pub raw_os_error : Option ℕ
  pub text : Text

-- `TcpKeepalive`: the seconds and the number of the probes
pub record Keepalive : Type 0 where
  pub time : ℕ
  pub interval : ℕ
  pub retries : ℕ

-- The calls on one socket. The Boolean of `socket` tells TCP from UDP, and that of `bind_any` the
-- IPv4 wildcard from the IPv6 one.
pub data Call : Type 0 where
  socket : Bool → SocketAddr → Call
  set_nonblocking take_error from_std writable set_nodelay : Call
  set_tcp_keepalive : Keepalive → Call
  bind_any : Bool → Call
  set_recv_buffer_size set_send_buffer_size set_mark : ℕ → Call
  connect : SocketAddr → Call

-- A system run: the calls so far, to a result and the calls.
abbrev pub Sys : Type 0 → Type 0
Sys A = List Call → Result IoError A × List Call

infixl 5 ◌>>=◌ ◌>>◌
abbrev pub then_run :
    {A B : Type 0} → Result IoError A × List Call → (A → Sys B) → Result IoError B × List Call
then_run (ok a, tr) f = f a tr
then_run (err e, tr) f = (err e, tr)

abbrev pub ◌>>=◌ : {A B : Type 0} → Sys A → (A → Sys B) → Sys B
m >>= f = λ tr. then_run (m tr) f

abbrev pub ◌>>◌ : {B : Type 0} → Sys (Unit {0}) → Sys B → Sys B
m >> k = m >>= λ _. k

abbrev pub give : {A : Type 0} → A → Sys A
give a tr = (ok a, tr)

abbrev pub fail : {A : Type 0} → IoError → Sys A
fail e tr = (err e, tr)

-- a step that is only done if a value is there, and one that is only done on a test
abbrev pub if_some : Option ℕ → (ℕ → Sys (Unit {0})) → Sys (Unit {0})
if_some none f = give tt
if_some (some n) f = f n

abbrev pub if_set : Bool → Sys (Unit {0}) → Sys (Unit {0})
if_set b m = if b then m else give tt
