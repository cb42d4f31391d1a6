-- ===== src/Socks5/Transcript/Complete.antt =====
-- Every handshake of the protocol is a run of `connect` that succeeds.
use gust.Prelude.{
  ℕ, ◌+◌, ◌≤◌, ◌≡◌, ◌↔◌, refl, sym, ap, ◌∙◌, subst, inl, inr, false, ◌||◌, [], ◌∷◌, ◌++◌,
  append-nil, Option, some, ok, arith, ltb, length, length-append,
}
use gust.Text.{Text}
use gust.Text.Utf8.{Bytes, as_bytes}
use gust.Socks5.Stream.{Stream, Io, done, ◌>>=◌, read_exact}
use gust.Socks5.Stream.Moves.{Moves, Moves-split, Moves-as, write_all_run, read_exact_run}
use gust.Socks5.{
  method_request, auth_request, connect_request, text_or_empty, user_pass_auth, chosen_method,
  negotiate_method, encode_addr, reply_addr_len, read_reply, send_connect, connect,
}
use gust.Socks5.Transcript.Requests.{
  method_request-greeting, password-text_or_empty, auth_request-credentials,
  IsRequest-connect_request,
}
use gust.Socks5.Transcript.{
  greeting, password, credentials, IsBoundAddr, IsReply, reply, Negotiation, without_auth,
  with_auth, Transcript, handshake,
}
use gust.Socks5.Transcript.Sound.{connect_sound}

within :
    (u p : Text)
    → length (as_bytes u) ≤ 255
    → length (as_bytes p) ≤ 255
    → (ltb 255 (length (as_bytes u)) || ltb 255 (length (as_bytes p))) ≡ false
within u p h k = ground arith

user_pass_auth_run :
    (u p : Text) (v : ℕ) (s t : Stream)
    → length (as_bytes u) ≤ 255
    → length (as_bytes p) ≤ 255
    → Moves s (v ∷ 0 ∷ []) (auth_request u p) t
    → user_pass_auth u p s ≡ (ok tt, t)
unfolding user_pass_auth
user_pass_auth_run u p v s t h k m =
    let (s1, m1, m2) =
      Moves-split [] (v ∷ 0 ∷ []) (auth_request u p) [] (Moves-as m refl (sym (append-nil _))) in
    rw (
      within u p h k,
      write_all_run (auth_request u p) s s1 m1,
      read_exact_run 2 (v ∷ 0 ∷ []) s1 t refl m2,
    )

chosen_no_auth_run :
    (user pass : Option Text) (s : Stream) → chosen_method user pass 0 s ≡ (ok tt, s)
unfolding chosen_method
chosen_no_auth_run user pass s = refl

chosen_auth_run :
    (user pass : Option Text) (u : Text) (v : ℕ) (s t : Stream)
    → user ≡ some u
    → length (as_bytes u) ≤ 255
    → length (as_bytes (text_or_empty pass)) ≤ 255
    → Moves s (v ∷ 0 ∷ []) (auth_request u (text_or_empty pass)) t
    → chosen_method user pass 2 s ≡ (ok tt, t)
unfolding chosen_method
chosen_auth_run user pass u v s t e h k m =
    rw e (user_pass_auth_run u (text_or_empty pass) v s t h k m)

sent_auth :
    (user pass : Option Text) (u : Text)
    → length (as_bytes u) ≤ 255
    → length (password pass) ≤ 255
    → greeting user ++ credentials (as_bytes u) (password pass)
      ≡ method_request user ++ auth_request u (text_or_empty pass)
sent_auth user pass u h k =
    ap (λ x. x ++ credentials (as_bytes u) (password pass)) (sym (method_request-greeting user))
    ∙ ap (λ x. method_request user ++ x) (sym (auth_request-credentials u pass h k))

long_enough :
    (pass : Option Text)
    → length (password pass) ≤ 255
    → length (as_bytes (text_or_empty pass)) ≤ 255
long_enough pass h = subst (λ b. length b ≤ 255) (sym (password-text_or_empty pass)) h

negotiate_method_run :
    (user pass : Option Text) (o i : Bytes) (s t : Stream)
    → Negotiation user pass o i
    → Moves s i o t
    → negotiate_method user pass s ≡ (ok tt, t)
unfolding negotiate_method
negotiate_method_run user pass o i s t (without_auth out inp eo ei) m =
    let (s1, m1, m2) = Moves-split [] (5 ∷ 0 ∷ []) (method_request user) [] (
      Moves-as m ei
        (eo ∙ sym (method_request-greeting user) ∙ sym (append-nil (method_request user)))) in
    rw (write_all_run (method_request user) s s1 m1, read_exact_run 2 (5 ∷ 0 ∷ []) s1 t refl m2)
      (chosen_no_auth_run user pass t)
negotiate_method_run user pass o i s t (with_auth u v out inp eu h k eo ei) m =
    let (s1, m1, m2) =
      Moves-split (5 ∷ 2 ∷ []) (v ∷ 0 ∷ []) (method_request user)
        (auth_request u (text_or_empty pass)) (Moves-as m ei (eo ∙ sent_auth user pass u h k)) in
    let (s0, m3, m4) =
      Moves-split [] (5 ∷ 2 ∷ []) (method_request user) []
        (Moves-as m1 refl (sym (append-nil _))) in
    rw (write_all_run (method_request user) s s0 m3, read_exact_run 2 (5 ∷ 2 ∷ []) s0 s1 refl m4)
      (chosen_auth_run user pass u v s1 t eu h (long_enough pass k) m2)

abbrev rest_of_reply : ℕ → Io (Unit {0})
rest_of_reply atyp = do n ← reply_addr_len atyp; scratch ← read_exact (n + 2); done tt

-- the address and the port behind the head of a reply
reply_addr_len_run :
    (atyp : ℕ) (addr port : Bytes) (s t : Stream)
    → IsBoundAddr atyp addr
    → length port ≡ 2
    → Moves s (addr ++ port) [] t
    → rest_of_reply atyp s ≡ (ok tt, t)
unfolding reply_addr_len
reply_addr_len_run atyp addr port s t (inl (e, f)) l m =
    rw (e, read_exact_run 6 (addr ++ port) s t (omega (arith, length-append addr port)) m)
reply_addr_len_run atyp addr port s t (inr (inl (e, f))) l m =
    rw (e, read_exact_run 18 (addr ++ port) s t (omega (arith, length-append addr port)) m)
reply_addr_len_run atyp addr port s t (inr (inr (e, (b, f)))) l m =
    let (s1, m1, m2) =
      Moves-split (length b ∷ []) (b ++ port) [] []
        (Moves-as m (ap (λ (x : Bytes). x ++ port) f) refl) in
    rw (e, read_exact_run 1 (length b ∷ []) s s1 refl m1)
      (rw (read_exact_run (length b + 2) (b ++ port) s1 t (omega (arith, length-append b port)) m2))

read_reply_run : (r : Bytes) (s t : Stream) → IsReply r → Moves s r [] t → read_reply s ≡ (ok tt, t)
unfolding read_reply
read_reply_run r s t (reply rsv atyp addr port r' b l e) m =
    let (s1, m1, m2) =
      Moves-split (5 ∷ 0 ∷ rsv ∷ atyp ∷ []) (addr ++ port) [] [] (Moves-as m e refl) in
    rw (read_exact_run 4 (5 ∷ 0 ∷ rsv ∷ atyp ∷ []) s s1 refl m1)
      (reply_addr_len_run atyp addr port s1 t b l m2)

send_connect_run :
    (host : Text) (port : ℕ) (addr r : Bytes) (s t : Stream)
    → encode_addr host ≡ ok addr
    → IsReply r
    → Moves s r (connect_request addr port) t
    → send_connect host port s ≡ (ok tt, t)
unfolding send_connect
send_connect_run host port addr r s t e rep m =
    let (s1, m1, m2) =
      Moves-split [] r (connect_request addr port) []
        (Moves-as m refl (sym (append-nil (connect_request addr port)))) in
    rw (e, write_all_run (connect_request addr port) s s1 m1) (read_reply_run r s1 t rep m2)

connect_run :
    (host : Text) (port : ℕ) (user pass : Option Text) (out inp : Bytes) (s t : Stream)
    → Transcript host port user pass out inp
    → Moves s inp out t
    → connect host port user pass s ≡ (ok tt, t)
unfolding connect
connect_run host port user pass out inp s t (handshake o i c r out' inp' neg req rep eo ei) m =
    let (addr, e, is) = IsRequest-connect_request host port c req in
    let (s1, m1, m2) =
      Moves-split i r o (connect_request addr port) (Moves-as m ei (eo ∙ ap (λ x. o ++ x) is)) in
    rw (negotiate_method_run user pass o i s s1 neg m1)
      (send_connect_run host port addr r s1 t e rep m2)

-- `connect` succeeds exactly if the server's bytes begin with its side of a handshake of the
-- protocol for these arguments and the client's side can be written, where the reply's reserved
-- byte and the version in the answer to the credentials may be any. It has then written that side and nothing else,
-- and has read the server's side and no byte behind it, so the stream stands at the application's
-- first byte.
pub connect_iff :
    (host : Text) (port : ℕ) (user pass : Option Text) (s t : Stream)
    → (connect host port user pass s ≡ (ok tt, t))
      ↔ ((out : Bytes) × (inp : Bytes) × Transcript host port user pass out inp × Moves s inp out t)
connect_iff host port user pass s t = (
  connect_sound host port user pass s t,
  λ (out, inp, h, m). connect_run host port user pass out inp s t h m,
)
