-- ===== src/Socks5/Transcript/Sound.antt =====
-- A run of `connect` that succeeds has made a whole handshake, and has read nothing behind it.
use gust.Prelude.{
  ℕ, zero, suc, ◌+◌, ◌≤◌, ◌≡◌, refl, sym, ap, ◌∙◌, subst, ◌⊎◌, inl, inr, false, not, ◌||◌, [], ◌∷◌,
  ◌++◌, append_assoc, append-nil, Option, none, some, Result, ok, err, arith, ltb, ◌==◌, ==_iff,
  nth, length, Bool-cases,
}
use gust.Text.{Text}
use gust.Text.Utf8.{Bytes, as_bytes}
use gust.Socks5.Stream.{
  Stream, Error, Io, fail, done, ◌>>=◌, write_all, read_exact, auth_failed, auth_not_configured,
  credentials_too_long, bad_method_version, bad_reply_version, connect_failed,
}
use gust.Socks5.Stream.Moves.{
  Moves, Moves-refl, Moves-trans, and_then-eq-ok, fail_if-eq-ok, write_all-Moves, read_exact-Moves,
  fail_if_last, Moves-as,
}
use gust.Socks5.{
  method_request, auth_request, connect_request, text_or_empty, user_pass_auth, chosen_method,
  negotiate_method, encode_addr, lift, reply_addr_len, read_reply, send_connect, connect,
}
use gust.Socks5.Transcript.Requests.{
  method_request-greeting, password-text_or_empty, auth_request-credentials,
  connect_request-IsRequest,
}
use gust.Socks5.Transcript.{
  greeting, password, IsBoundAddr, IsReply, reply, Negotiation, without_auth, with_auth, Transcript,
  handshake,
}

two_bytes : (b : Bytes) → length b ≡ 2 → b ≡ nth 0 b ∷ nth 1 b ∷ []
two_bytes b h = ground arith

two_bytes_as : (b : Bytes) (x y : ℕ) → length b ≡ 2 → nth 0 b ≡ x → nth 1 b ≡ y → b ≡ x ∷ y ∷ []
two_bytes_as b x y h e f = ground arith

one_byte : (b : Bytes) → length b ≡ 1 → b ≡ nth 0 b ∷ []
one_byte b h = ground arith

within_left :
    (u p : Text)
    → (ltb 255 (length (as_bytes u)) || ltb 255 (length (as_bytes p))) ≡ false
    → length (as_bytes u) ≤ 255
within_left u p h = ground arith

within_right :
    (u p : Text)
    → (ltb 255 (length (as_bytes u)) || ltb 255 (length (as_bytes p))) ≡ false
    → length (as_bytes p) ≤ 255
within_right u p h = ground arith

split_at :
    (n m : ℕ) (b : Bytes)
    → length b ≡ n + m
    → (x : Bytes) × (y : Bytes) × (b ≡ x ++ y) × (length x ≡ n) × (length y ≡ m)
split_at zero m b h = ([], b, refl, refl, omega arith)
split_at (suc n) m [] h = absurd (omega arith)
split_at (suc n) m (c ∷ b) h =
    let (x, y, e, p, q) = split_at n m b (omega arith) in (c ∷ x, y, ap (◌∷◌ c) e, ap suc p, q)

user_pass_auth-Moves :
    (u p : Text) (s t : Stream) {x : Unit {0}}
    → user_pass_auth u p s ≡ (ok x, t)
    → (v : ℕ) × (length (as_bytes u) ≤ 255)
      × (length (as_bytes p) ≤ 255)
      × Moves s (v ∷ 0x00 ∷ []) (auth_request u p) t
unfolding user_pass_auth
user_pass_auth-Moves u p s t h =
    let long = ltb 255 (length (as_bytes u)) || ltb 255 (length (as_bytes p)) in
    let (fits, h1) = fail_if-eq-ok long credentials_too_long _ h in
    let (_, s1, w, h2) = and_then-eq-ok (write_all (auth_request u p) s) _ h1 in
    let (resp, s2, r, h3) = and_then-eq-ok (read_exact 2 s1) _ h2 in
    let (status, e) = fail_if_last (not (nth 1 resp == 0x00)) (auth_failed (nth 1 resp)) s2 t h3 in
    let (two, m) = read_exact-Moves 2 s1 s2 r in
    let zero_status : nth 1 resp ≡ 0 = ground arith in
    (
      nth 0 resp,
      within_left u p fits,
      within_right u p fits,
      subst (Moves s _ _) e (
          Moves-as (Moves-trans (write_all-Moves _ s s1 w) m)
            (two_bytes resp two ∙ ap (λ (b : ℕ). nth 0 resp ∷ b ∷ []) zero_status)
            (append-nil (auth_request u p))),
    )

-- what the choice of a method adds to the transcript
Chosen : Option Text → Option Text → ℕ → Stream → Stream → Type 0
Chosen user pass m s t =
    ((m ≡ 0) × (s ≡ t))
    ⊎ ((m ≡ 2)
        × ((u : Text) × (v : ℕ) × (user ≡ some u)
            × (length (as_bytes u) ≤ 255)
            × (length (as_bytes (text_or_empty pass)) ≤ 255)
            × Moves s (v ∷ 0x00 ∷ []) (auth_request u (text_or_empty pass)) t))

chosen_method-Chosen :
    (user pass : Option Text) (m : ℕ) (s t : Stream) {x : Unit {0}}
    → chosen_method user pass m s ≡ (ok x, t)
    → Chosen user pass m s t
unfolding chosen_method Chosen
chosen_method-Chosen user pass m s t h = elim (Bool-cases (m == 0)) [
  | inl e ↦ inl ((==_iff m 0).0 e, ap (λ p. p.1) (rw e at h))
  | inr e ↦ elim (Bool-cases (m == 2)) [
    | inl f ↦ inr ((==_iff m 2).0 f, with_user user refl (rw (e, f) at h))
    | inr f ↦ elim (Bool-cases (m == 0xff)) [
      | inl g ↦ cc (rw (e, f, g) at h)
      | inr g ↦ cc (rw (e, f, g) at h)
    ]
  ]
]
  where
    with_user :
        (w : Option Text)
        → user ≡ w
        → (elim w as (λ _. Io (Unit {0})) [
          | none ↦ fail auth_not_configured
          | some u ↦ user_pass_auth u (text_or_empty pass)
        ])
            s
          ≡ (ok tt, t)
        → (u : Text) × (v : ℕ) × (user ≡ some u)
          × (length (as_bytes u) ≤ 255)
          × (length (as_bytes (text_or_empty pass)) ≤ 255)
          × Moves s (v ∷ 0x00 ∷ []) (auth_request u (text_or_empty pass)) t
    with_user none e k = cc k
    with_user (some u) e k =
        let (v, f, g, m') = user_pass_auth-Moves u (text_or_empty pass) s t k in (u, v, e, f, g, m')

eq_zero : (n : ℕ) → not (n == 0) ≡ false → n ≡ 0
eq_zero n h = ground arith

four_bytes_as :
    (b : Bytes) → nth 0 b ≡ 5 → nth 1 b ≡ 0 → length b ≡ 4 → b ≡ 5 ∷ 0 ∷ nth 2 b ∷ nth 3 b ∷ []
four_bytes_as b e f h = ground arith

lift-eq-ok :
    {A : Type 0} (r : Result Error A) (s t : Stream) {a : A}
    → lift r s ≡ (ok a, t)
    → (r ≡ ok a) × (s ≡ t)
lift-eq-ok (ok b) s t h = (ap (λ p. p.0) h, ap (λ p. p.1) h)
lift-eq-ok (err e) s t h = cc

eq_five : (n : ℕ) → not (n == 5) ≡ false → n ≡ 5
eq_five n h = ground arith

short :
    (pass : Option Text)
    → length (as_bytes (text_or_empty pass)) ≤ 255
    → length (password pass) ≤ 255
short pass h = subst (λ b. length b ≤ 255) (password-text_or_empty pass) h

method_phase :
    (user pass : Option Text) (s s2 t : Stream) (resp : Bytes)
    → length resp ≡ 2
    → nth 0 resp ≡ 5
    → Moves s resp (method_request user ++ []) s2
    → Chosen user pass (nth 1 resp) s2 t
    → (out : Bytes) × (inp : Bytes) × Negotiation user pass out inp × Moves s inp out t
unfolding Chosen
method_phase user pass s s2 t resp two five m (inl (e, f)) = (
  method_request user,
  5 ∷ 0 ∷ [],
  without_auth _ _ (method_request-greeting user) refl,
  subst (Moves s _ _) f (Moves-as m (two_bytes_as resp 5 0 two five e) (append-nil _)),
)
method_phase user pass s s2 t resp two five m (inr (e, (u, v, g, a, b, m'))) = (
  _,
  _,
  with_auth u v _ _ g a (short pass b)
      (ap (λ x. x ++ auth_request u (text_or_empty pass)) (method_request-greeting user)
        ∙ ap (λ x. greeting user ++ x) (auth_request-credentials u pass a (short pass b)))
      refl,
  Moves-as (Moves-trans m m')
      (ap (λ (x : Bytes). x ++ v ∷ 0 ∷ []) (two_bytes_as resp 5 2 two five e))
      (ap (λ (x : Bytes). x ++ auth_request u (text_or_empty pass))
        (append-nil (method_request user))),
)

negotiate_method-Moves :
    (user pass : Option Text) (s t : Stream) {x : Unit {0}}
    → negotiate_method user pass s ≡ (ok x, t)
    → (out : Bytes) × (inp : Bytes) × Negotiation user pass out inp × Moves s inp out t
unfolding negotiate_method
negotiate_method-Moves user pass s t h =
    let (_, s1, w, h1) = and_then-eq-ok (write_all (method_request user) s) _ h in
    let (resp, s2, r, h2) = and_then-eq-ok (read_exact 2 s1) _ h1 in
    let (good, h3) = fail_if-eq-ok (not (nth 0 resp == 5)) (bad_method_version (nth 0 resp)) _ h2 in
    let (two, m) = read_exact-Moves 2 s1 s2 r in
    let first = Moves-trans (write_all-Moves _ s s1 w) m in
    method_phase user pass s s2 t resp two (eq_five (nth 0 resp) good) first
      (chosen_method-Chosen user pass (nth 1 resp) s2 t h3)

domain_len-Moves :
    (atyp n : ℕ) (s t : Stream)
    → atyp ≡ 3
    → (read_exact 1 >>= λ l. done (nth 0 l)) s ≡ (ok n, t)
    → (pre : Bytes) × Moves s pre [] t
      × ((addr : Bytes) → length addr ≡ n → IsBoundAddr atyp (pre ++ addr))
domain_len-Moves atyp n s t e h =
    let (l, s1, r, h1) = and_then-eq-ok (read_exact 1 s) (λ l. done (nth 0 l)) h in
    let (single, m) = read_exact-Moves 1 s s1 r in
    let value : nth 0 l ≡ n = cc (ap (λ p. p.0) h1) in
    (
      l,
      subst (Moves s l []) (ap (λ p. p.1) h1) m,
      λ addr k. inr (
          inr (
            e,
            (
              addr,
              ap (λ (x : Bytes). x ++ addr) (one_byte l single)
                  ∙ ap (λ (x : ℕ). x ∷ addr) (value ∙ sym k),
            ),
          )),
    )

reply_addr_len-Moves :
    (atyp n : ℕ) (s t : Stream)
    → reply_addr_len atyp s ≡ (ok n, t)
    → (pre : Bytes) × Moves s pre [] t
      × ((addr : Bytes) → length addr ≡ n → IsBoundAddr atyp (pre ++ addr))
unfolding reply_addr_len
reply_addr_len-Moves atyp n s t h = elim (Bool-cases (atyp == 1)) [
  | inl e ↦ let k = rw e at h in ([], stays k, λ addr l. inl ((==_iff atyp 1).0 e, l ∙ sym (got k)))
  | inr e ↦ elim (Bool-cases (atyp == 4)) [
    | inl f ↦
        let k = rw (e, f) at h in
        ([], stays k, λ addr l. inr (inl ((==_iff atyp 4).0 f, l ∙ sym (got k))))
    | inr f ↦ elim (Bool-cases (atyp == 3)) [
      | inl g ↦ domain_len-Moves atyp n s t ((==_iff atyp 3).0 g) (rw (e, f, g) at h)
      | inr g ↦ cc (rw (e, f, g) at h)
    ]
  ]
]
  where
    stays : {m : ℕ} → done m s ≡ (ok n, t) → Moves s [] [] t
    stays k = subst (Moves s [] []) (ap (λ p. p.1) k) (Moves-refl s)

    got : {m : ℕ} → done m s ≡ (ok n, t) → m ≡ n
    got k = cc (ap (λ p. p.0) k)

-- the parts that were read make a reply
IsReply-of :
    (head pre scratch : Bytes) (n : ℕ)
    → length head ≡ 4
    → not (nth 0 head == 5) ≡ false
    → not (nth 1 head == 0) ≡ false
    → ((addr : Bytes) → length addr ≡ n → IsBoundAddr (nth 3 head) (pre ++ addr))
    → length scratch ≡ n + 2
    → (r : Bytes) × IsReply r × (head ++ (pre ++ scratch) ≡ r)
IsReply-of head pre scratch n four good accepted bound long =
    let (addr, port, e, la, lp) = split_at n 2 scratch long in
    let tail = λ (x : Bytes). 5 ∷ 0 ∷ nth 2 head ∷ nth 3 head ∷ x in
    (
      tail ((pre ++ addr) ++ port),
      reply (nth 2 head) (nth 3 head) (pre ++ addr) port _ (bound addr la) lp refl,
      ap (λ (x : Bytes). x ++ (pre ++ scratch))
            (four_bytes_as head (eq_five (nth 0 head) good) (eq_zero (nth 1 head) accepted) four)
          ∙ ap (λ (x : Bytes). tail (pre ++ x)) e
          ∙ ap tail (sym (append_assoc pre addr port)),
    )

-- The reply is read to its end and no further.
read_reply-Moves :
    (s t : Stream) {x : Unit {0}}
    → read_reply s ≡ (ok x, t)
    → (r : Bytes) × IsReply r × Moves s r [] t
unfolding read_reply
read_reply-Moves s t h =
    let (head, s1, r, h1) = and_then-eq-ok (read_exact 4 s) _ h in
    let (four, m) = read_exact-Moves 4 s s1 r in
    let (good, h2) = fail_if-eq-ok (not (nth 0 head == 5)) (bad_reply_version (nth 0 head)) _ h1 in
    let (accepted, h3) = fail_if-eq-ok (not (nth 1 head == 0)) (connect_failed (nth 1 head)) _ h2 in
    let (n, s2, l, h4) = and_then-eq-ok (reply_addr_len (nth 3 head) s1) _ h3 in
    let (scratch, s3, q, h5) = and_then-eq-ok (read_exact (n + 2) s2) _ h4 in
    let (pre, m', bound) = reply_addr_len-Moves (nth 3 head) n s1 s2 l in
    let (long, m'') = read_exact-Moves (n + 2) s2 s3 q in
    let (r', rep, e) = IsReply-of head pre scratch n four good accepted bound long in
    (
      r',
      rep,
      Moves-as (subst (Moves s _ []) (ap (λ p. p.1) h5) (Moves-trans m (Moves-trans m' m''))) e
          refl,
    )

send_connect-Moves :
    (host : Text) (port : ℕ) (s t : Stream) {x : Unit {0}}
    → send_connect host port s ≡ (ok x, t)
    → (addr : Bytes) × (r : Bytes) × (encode_addr host ≡ ok addr)
      × IsReply r
      × Moves s r (connect_request addr port) t
unfolding send_connect
send_connect-Moves host port s t h =
    let (addr, s1, a, h1) = and_then-eq-ok (lift (encode_addr host) s) _ h in
    let (_, s2, w, h2) = and_then-eq-ok (write_all (connect_request addr port) s1) _ h1 in
    let (r, rep, m) = read_reply-Moves s2 t h2 in
    let (e, f) = lift-eq-ok (encode_addr host) s s1 a in
    (
      addr,
      r,
      e,
      rep,
      Moves-as
          (Moves-trans
            (subst (λ x. Moves x [] (connect_request addr port) s2) (sym f)
              (write_all-Moves (connect_request addr port) s1 s2 w))
            m)
          refl (append-nil (connect_request addr port)),
    )

pub connect_sound :
    (host : Text) (port : ℕ) (user pass : Option Text) (s t : Stream)
    → connect host port user pass s ≡ (ok tt, t)
    → (out : Bytes) × (inp : Bytes) × Transcript host port user pass out inp × Moves s inp out t
unfolding connect
connect_sound host port user pass s t h =
    let (_, s1, n, h1) = and_then-eq-ok (negotiate_method user pass s) _ h in
    let (o, i, neg, m) = negotiate_method-Moves user pass s s1 n in
    let (addr, r, e, rep, m') = send_connect-Moves host port s1 t h1 in
    (
      _,
      _,
      handshake o i (connect_request addr port) r _ _ neg
          (connect_request-IsRequest host port addr e) rep refl refl,
      Moves-trans m m',
    )
