-- ===== src/Netopt/Dial/Names.antt =====
-- src/netopt.rs and src/forward/udp.rs: which of the addresses of a name is taken.
use gust.Prelude.{
  ℕ, suc, ◌+◌, ◌≡◌, refl, sym, ap, ◌∙◌, subst, List, [], ◌∷◌, ◌++◌, Option, none, some, Result, ok,
  err, length, ◌⊎◌, inl, inr, arith,
}
use gust.Text.{Text}
use gust.Netopt.Calls.{SocketAddr, IoError}
use gust.Netopt.Dial.{
  first_connected, unresolved, no_target_address, try_tcp, try_udp, dial_tcp, new_session, Kernel,
}
use gust.Netopt.{SockOpts}

module _ {S : Type 0} (attempt : ℕ → SocketAddr → Result IoError S) where
  -- the tries from the n-th on fail
  abbrev pub AllFail : ℕ → List SocketAddr → Type 0
  AllFail n [] = Unit
  AllFail n (sa ∷ addrs) = ((e : IoError) × (attempt n sa ≡ err e)) × AllFail (suc n) addrs

  -- A list is its tries that failed, then one with the result, and then what was not tried.
  abbrev pub TriedTo : ℕ → List SocketAddr → List SocketAddr → Result IoError S → Type 0
  TriedTo n addrs after r =
      (before : List SocketAddr) × (sa : SocketAddr) × (addrs ≡ before ++ sa ∷ after)
      × AllFail n before
      × (attempt (n + length before) sa ≡ r)

  -- The result is the first try that works; if none does, it is the last error, and without an
  -- address the error that is named.
  abbrev pub Outcome : ℕ → IoError → List SocketAddr → Result IoError S → Type 0
  Outcome n missing addrs (ok s) = (after : List SocketAddr) × TriedTo n addrs after (ok s)
  Outcome n missing addrs (err e) = ((addrs ≡ []) × (e ≡ missing)) ⊎ TriedTo n addrs [] (err e)

  later_try :
      (n : ℕ) (sa : SocketAddr) (e : IoError) (addrs after : List SocketAddr) (r : Result IoError S)
      → attempt n sa ≡ err e
      → TriedTo (suc n) addrs after r
      → TriedTo n (sa ∷ addrs) after r
  later_try n sa e addrs after r h (before, sb, eq, fails, got) =
      (sa ∷ before, sb, ap (◌∷◌ sa) eq, ((e, h), fails), ap (λ m. attempt m sb) (omega arith) ∙ got)

  first_try :
      (n : ℕ) (sa : SocketAddr) (addrs : List SocketAddr) (r : Result IoError S)
      → attempt n sa ≡ r
      → TriedTo n (sa ∷ addrs) addrs r
  first_try n sa addrs r h = ([], sa, refl, tt, ap (λ m. attempt m sa) (omega arith) ∙ h)

  later_outcome :
      (n : ℕ) (missing : IoError) (sa : SocketAddr) (e : IoError) (addrs : List SocketAddr)
      (r : Result IoError S)
      → attempt n sa ≡ err e
      → Outcome (suc n) e addrs r
      → Outcome n missing (sa ∷ addrs) r
  later_outcome n missing sa e addrs (ok s) h (after, t) =
      (after, later_try n sa e addrs after (ok s) h t)
  later_outcome n missing sa e addrs (err f) h (inl (none_left, same)) = inr (
      subst (λ rest. TriedTo n (sa ∷ addrs) rest (err f)) none_left
        (first_try n sa addrs (err f) (h ∙ ap err (sym same))))
  later_outcome n missing sa e addrs (err f) h (inr t) = inr (later_try n sa e addrs [] (err f) h t)

  module _ (missing : IoError) where
    abbrev error_so_far : Option IoError → IoError
    error_so_far none = missing
    error_so_far (some e) = e

    first_connected-Outcome :
        (n : ℕ) (last : Option IoError) (addrs : List SocketAddr)
        → Outcome n (error_so_far last) addrs (first_connected attempt missing n last addrs)
    unfolding first_connected
    first_connected-Outcome n none [] = inl (refl, refl)
    first_connected-Outcome n (some e) [] = inl (refl, refl)
    first_connected-Outcome n last (sa ∷ addrs) =
        tried (attempt n sa) refl (λ e. first_connected-Outcome (suc n) (some e) addrs)
      where
        tried :
            (r : Result IoError S)
            → attempt n sa ≡ r
            → ((e : IoError)
                → Outcome (suc n) e addrs (first_connected attempt missing (suc n) (some e) addrs))
            → Outcome n (error_so_far last) (sa ∷ addrs) (elim r [
              | ok s ↦ ok s
              | err e ↦ first_connected attempt missing (suc n) (some e) addrs
            ])
        tried (ok s) h rest = (addrs, first_try n sa addrs (ok s) h)
        tried (err e) h rest =
            later_outcome n (error_so_far last) sa e addrs
              (first_connected attempt missing (suc n) (some e) addrs) h (rest e)

module _ (kernels : ℕ → Kernel) (parse_addr : Text → Option SocketAddr)
    (lookup_host : Text → Result IoError (List SocketAddr)) where
  -- Where the address is no literal and its name has addresses, dialing it by TCP or opening a UDP
  -- session to it takes the first one that works, trying them in order and none behind it; if none
  -- works, the error is that of the last one; and only without an address it is the error that
  -- says so.
  pub dial_tcp-Outcome :
      (addr : Text) (mark : Option ℕ) (opts : SockOpts) (addrs : List SocketAddr)
      → parse_addr addr ≡ none
      → lookup_host addr ≡ ok addrs
      → Outcome
          (try_tcp kernels mark opts)
          0
          (unresolved addr)
          addrs
          (dial_tcp kernels parse_addr lookup_host addr mark opts)
        × Outcome
            (try_udp kernels mark)
            0
            no_target_address
            addrs
            (new_session kernels parse_addr lookup_host addr mark)
  unfolding dial_tcp new_session
  dial_tcp-Outcome addr mark opts addrs p h =
      rw (p, h)
        (
          first_connected-Outcome (try_tcp kernels mark opts) (unresolved addr) 0 none addrs,
          first_connected-Outcome (try_udp kernels mark) no_target_address 0 none addrs,
        )
