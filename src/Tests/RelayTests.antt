-- ===== src/Tests/RelayTests.antt =====
-- A copy between two buffers, and a TCP listener at concrete events.
use gust.Prelude.{
  ℕ, zero, suc, ◌<◌, ◌≤◌, ◌≡◌, ◌≢◌, refl, sym, ap, ◌∙◌, arith, List, [], ◌∷◌, ◌++◌, some, Result,
  ok, err, length, take, drop, take-append-drop, ok-injective,
}
use gust.Text.{Text, codes}
use gust.Text.Utf8.{Bytes}
use gust.Stats.{new_stats}
use gust.Netopt.Calls.{IoError, other}
use gust.Relay.{Reader, Writer, copy_one}
use gust.Relay.Copies.{EndsCopied, copy_one-EndsCopied}
use gust.Forward.Tcp.{accepts, accept_fails, begins, ends, new_server, serve}
use gust.Forward.Tcp.Tally.{Serves}
use gust.Forward.Tcp.Serving.{serve-Serves}

abbrev Buffer : Type 0
Buffer = Bytes

abbrev read_some : ℕ → Buffer → Result IoError Bytes × Buffer
read_some n r = (ok (take n r), drop n r)

abbrev write_some : Bytes → Buffer → Result IoError (Unit {0}) × Buffer
write_some bs w = (ok tt, w ++ bs)

length-take : (n : ℕ) (bs : Bytes) → length (take n bs) ≤ n
length-take zero bs = omega arith
length-take (suc n) [] = omega arith
length-take (suc n) (b ∷ bs) = omega (arith, length-take n bs)

read_of :
    (n : ℕ) (r s : Buffer) (bs : Bytes)
    → read_some n r ≡ (ok bs, s)
    → (take n r ≡ bs) × (drop n r ≡ s)
read_of n r s bs h = (ok-injective (ap (λ (a, _). a) h), ap (λ (_, b). b) h)

read_size : (n : ℕ) (r s : Buffer) (bs : Bytes) → read_some n r ≡ (ok bs, s) → length bs ≤ n
read_size n r s bs h =
    let (t, _) = read_of n r s bs h in omega (arith, length-take n r, ap length t)

read_next : (n : ℕ) (r s : Buffer) (bs : Bytes) → read_some n r ≡ (ok bs, s) → r ≡ bs ++ s
read_next n r s bs h =
    let (t, d) = read_of n r s bs h in
    sym (take-append-drop n r) ∙ (ap (λ x. x ++ drop n r) t ∙ ap (λ x. bs ++ x) d)

read_end : (n : ℕ) (r s : Buffer) → 0 < n → read_some n r ≡ (ok [], s) → r ≡ []
read_end zero r s p h = absurd (omega arith)
read_end (suc n) [] s p h = refl
read_end (suc n) (b ∷ bs) s p h = absurd (let (t, _) = read_of (suc n) (b ∷ bs) s [] h in cc)

read_failed : (n : ℕ) (e : IoError) (r s : Buffer) → read_some n r ≡ (err e, s) → s ≡ r
read_failed n e r s h =
    absurd
      (let f : ◌≡◌ {A = Result IoError Bytes} (ok (take n r)) (err e) = ap (λ (a, _). a) h in cc)

wrote : (bs : Bytes) (w v : Buffer) → write_some bs w ≡ (ok tt, v) → v ≡ w ++ bs
wrote bs w v h = sym (ap (λ (_, b). b) h)

wrote_part :
    (bs : Bytes) (e : IoError) (w v : Buffer)
    → write_some bs w ≡ (err e, v)
    → (part rest : Bytes) × (bs ≡ part ++ rest) × (v ≡ w ++ part)
wrote_part bs e w v h =
    absurd (let f : ◌≡◌ {A = Result IoError (Unit {0})} (ok tt) (err e) = ap (λ (a, _). a) h in cc)

abbrev buffer_reader : Reader Buffer
buffer_reader = record {
  read = read_some;
  remaining = λ r. r;
  read_size = read_size;
  read_next = read_next;
  read_end = read_end;
  read_failed = read_failed;
}

abbrev buffer_writer : Writer Buffer
buffer_writer = record {
  write_all = write_some;
  written = λ w. w;
  wrote = wrote;
  wrote_part = wrote_part;
}

abbrev message : Bytes
message = 1 ∷ 2 ∷ 3 ∷ 4 ∷ 5 ∷ []

copy_one-EndsCopied_example :
    EndsCopied buffer_reader buffer_writer 2 0 message []
      (copy_one buffer_reader buffer_writer 6 2 0 message [])
copy_one-EndsCopied_example =
    copy_one-EndsCopied buffer_reader buffer_writer 2 6 0 message [] (omega arith) (omega arith)
      (omega arith)

copy_one_run : copy_one buffer_reader buffer_writer 6 2 0 message [] ≡ some (ok 5, [], message)
unfolding copy_one
copy_one_run = refl

-- An empty buffer copies nothing and takes that for the end of the stream.
empty_buffer_run : copy_one buffer_reader buffer_writer 6 0 0 message [] ≡ some (ok 0, message, [])
unfolding copy_one
empty_buffer_run = refl

abbrev two_targets : List Text
two_targets = codes "10.0.0.1:80" ∷ codes "10.0.0.2:80" ∷ []

two_targets_ne : two_targets ≢ []
two_targets_ne h = cc

abbrev broken : IoError
broken = record { kind = other; raw_os_error = some 104; text = codes "reset" }

serve-Serves_example : Serves two_targets (
    serve two_targets
      (accepts ∷ accept_fails ∷ begins 0 ∷ accepts ∷ ends 0 (ok tt) (ok tt) (err broken) ∷ [])
      (new_server (new_stats (codes "tcp://:80") (codes "tcp"))))
serve-Serves_example =
    serve-Serves (codes "tcp://:80") (codes "tcp") two_targets
      (accepts ∷ accept_fails ∷ begins 0 ∷ accepts ∷ ends 0 (ok tt) (ok tt) (err broken) ∷ [])
      two_targets_ne
