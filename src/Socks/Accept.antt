-- ===== src/Socks/Accept.antt =====
-- What the front end makes of a well-formed request, and what it refuses.
use mix_tor.Base.{
  ◌+◌, append_assoc, from_be16, sym, ◌*◌, none, ◌==◌, false, err, ◌<◌, drop-append, take-append,
  length-append, true, leb, ◌++◌, length, List, ℕ, ◌∷◌, [], ok, refl, arith, ◌≡◌,
}
use mix_tor.Socks.{
  v4, domain_target_rejected, contains, read_port, read_address, choose_method, read_connect_target,
  negotiate, accept_socks5_connect, read_exact, write_all, read_userpass_args, extract_cert,
}

-- Reading the first part of what comes in.
read_exact-append :
    (n : ℕ) (xs ys : List ℕ) (replies : List (List ℕ))
    → length xs ≡ n
    → read_exact n (record { incoming = xs ++ ys; replies = replies })
      ≡ (ok xs, record { incoming = ys; replies = replies })
unfolding read_exact
read_exact-append n xs ys replies h =
    let enough : leb n (length (xs ++ ys)) ≡ true = ground (arith, length-append xs ys) in
    rw enough (rw (take-append n xs ys h) (rw (drop-append n xs ys h) refl))

-- The sub-negotiation of RFC 1929.
abbrev pub userpass : List ℕ → List ℕ → List ℕ → List ℕ
userpass uname passwd rest = 1 ∷ length uname ∷ (uname ++ (length passwd ∷ (passwd ++ rest)))

read_userpass_args_ok :
    (uname passwd rest : List ℕ) (replies : List (List ℕ))
    → read_userpass_args (record { incoming = userpass uname passwd rest; replies = replies }) ≡ (
      ok (record { cert = extract_cert (uname ++ passwd) }),
      record { incoming = rest; replies = replies ++ ((1 ∷ 0 ∷ []) ∷ []) },
    )
unfolding read_userpass_args write_all
read_userpass_args_ok uname passwd rest replies =
    let more = length passwd ∷ (passwd ++ rest) in
    rw
      (
        read_exact-append 1 (1 ∷ []) (length uname ∷ (uname ++ more)) replies refl,
        read_userpass_args,
        read_exact-append 1 (length uname ∷ []) (uname ++ more) replies refl,
        read_exact-append (length uname) uname more replies refl,
        read_exact-append 1 (length passwd ∷ []) (passwd ++ rest) replies refl,
        read_exact-append (length passwd) passwd rest replies refl,
      )
      refl

-- Offered methods that hold username and password, and the sub-negotiation behind them.
negotiate-userpass :
    (methods uname passwd rest : List ℕ) (replies : List (List ℕ))
    → 0 < length methods
    → contains 2 methods ≡ true
    → negotiate (record {
      incoming = 5 ∷ length methods ∷ (methods ++ userpass uname passwd rest);
      replies = replies;
    })
      ≡ (
        ok (record { cert = extract_cert (uname ++ passwd) }),
        record {
          incoming = rest;
          replies = (replies ++ ((5 ∷ 2 ∷ []) ∷ [])) ++ ((1 ∷ 0 ∷ []) ∷ []);
        },
      )
unfolding negotiate choose_method write_all
negotiate-userpass methods uname passwd rest replies h offered =
    let some_methods : (length methods == 0) ≡ false = ground arith in
    rw
      (
        read_exact-append 2 (5 ∷ length methods ∷ []) (methods ++ userpass uname passwd rest)
            replies refl,
        negotiate,
        some_methods,
        read_exact-append (length methods) methods (userpass uname passwd rest) replies refl,
        offered,
      )
      (read_userpass_args_ok uname passwd rest (replies ++ ((5 ∷ 2 ∷ []) ∷ [])))

negotiate_no_auth :
    (methods rest : List ℕ) (replies : List (List ℕ))
    → 0 < length methods
    → contains 2 methods ≡ false
    → contains 0 methods ≡ true
    → negotiate (record { incoming = 5 ∷ length methods ∷ (methods ++ rest); replies = replies })
      ≡ (
        ok (record { cert = none }),
        record { incoming = rest; replies = replies ++ ((5 ∷ 0 ∷ []) ∷ []) },
      )
unfolding negotiate choose_method write_all
negotiate_no_auth methods rest replies h no_userpass no_auth =
    let some_methods : (length methods == 0) ≡ false = ground arith in
    rw
      (
        read_exact-append 2 (5 ∷ length methods ∷ []) (methods ++ rest) replies refl,
        negotiate,
        some_methods,
        read_exact-append (length methods) methods rest replies refl,
        no_userpass,
        no_auth,
      )
      refl

-- A CONNECT to an IPv4 address.
abbrev pub connect_v4 : List ℕ → ℕ → ℕ → ℕ → List ℕ → List ℕ
connect_v4 octets hi lo reserved rest = 5 ∷ 1 ∷ reserved ∷ 1 ∷ (octets ++ (hi ∷ lo ∷ rest))

read_connect_target_v4 :
    (octets rest : List ℕ) (hi lo reserved : ℕ) (replies : List (List ℕ))
    → length octets ≡ 4
    → read_connect_target
        (record { incoming = connect_v4 octets hi lo reserved rest; replies = replies })
      ≡ (ok (v4 octets (from_be16 hi lo)), record { incoming = rest; replies = replies })
unfolding read_connect_target read_address read_port
read_connect_target_v4 octets rest hi lo reserved replies h =
    rw
      (
        read_exact-append 4 (5 ∷ 1 ∷ reserved ∷ 1 ∷ []) (octets ++ (hi ∷ lo ∷ rest)) replies refl,
        read_connect_target,
        read_exact-append 4 octets (hi ∷ lo ∷ rest) replies h,
        read_exact-append 2 (hi ∷ lo ∷ []) rest replies refl,
      )
      refl

-- A CONNECT to a domain name.
abbrev pub connect_domain : List ℕ → ℕ → ℕ → ℕ → List ℕ → List ℕ
connect_domain host hi lo reserved rest =
    5 ∷ 1 ∷ reserved ∷ 3 ∷ length host ∷ (host ++ (hi ∷ lo ∷ rest))

read_connect_target_domain :
    (host rest : List ℕ) (hi lo reserved : ℕ) (replies : List (List ℕ))
    → read_connect_target
        (record { incoming = connect_domain host hi lo reserved rest; replies = replies })
      ≡ (err domain_target_rejected, record { incoming = rest; replies = replies })
unfolding read_connect_target read_address
read_connect_target_domain host rest hi lo reserved replies =
    let body = host ++ (hi ∷ lo ∷ []) in
    let split : host ++ (hi ∷ lo ∷ rest) ≡ body ++ rest =
      sym (append_assoc host (hi ∷ lo ∷ []) rest) in
    let size : length body ≡ length host + 2 = length-append host (hi ∷ lo ∷ []) in
    rw
      (
        read_exact-append 4 (5 ∷ 1 ∷ reserved ∷ 3 ∷ []) (length host ∷ (host ++ (hi ∷ lo ∷ rest)))
            replies refl,
        read_connect_target,
        read_exact-append 1 (length host ∷ []) (host ++ (hi ∷ lo ∷ rest)) replies refl,
        split,
        read_exact-append (length host + 2) body rest replies size,
      )
      refl

-- A client that offers username and password, and then connects to an IPv4 address, is answered with the
-- method, the success of the sub-negotiation and the success of the connection, in this order; the front
-- end returns the address, the port, and the certificate found in username and password together, and
-- leaves unread what comes behind the request.
pub accept_socks5_connect-userpass :
    (methods uname passwd octets rest : List ℕ) (hi lo reserved : ℕ)
    → 0 < length methods
    → contains 2 methods ≡ true
    → length octets ≡ 4
    → accept_socks5_connect (record {
      incoming =
          5
          ∷ length methods
          ∷ (methods ++ userpass uname passwd (connect_v4 octets hi lo reserved rest));
      replies = [];
    })
      ≡ (
        ok (v4 octets (hi * 256 + lo), record { cert = extract_cert (uname ++ passwd) }),
        record {
          incoming = rest;
          replies = (5 ∷ 2 ∷ []) ∷ (1 ∷ 0 ∷ []) ∷ (5 ∷ 0 ∷ 0 ∷ 1 ∷ 0 ∷ 0 ∷ 0 ∷ 0 ∷ 0 ∷ 0 ∷ []) ∷ [];
        },
      )
unfolding accept_socks5_connect write_all
accept_socks5_connect-userpass methods uname passwd octets rest hi lo reserved h offered n =
    rw
      (
        negotiate-userpass methods uname passwd (connect_v4 octets hi lo reserved rest) [] h
            offered,
        accept_socks5_connect,
        read_connect_target_v4 octets rest hi lo reserved ((5 ∷ 2 ∷ []) ∷ (1 ∷ 0 ∷ []) ∷ []) n,
      )
      refl

-- A request for a domain name is refused with `DomainTargetRejected`: the request is read to its end and
-- no success is answered, so that no name is looked up. (The client offers no authentication only.)
pub accept_socks5_connect_domain :
    (methods host rest : List ℕ) (hi lo reserved : ℕ)
    → 0 < length methods
    → contains 2 methods ≡ false
    → contains 0 methods ≡ true
    → accept_socks5_connect (record {
      incoming = 5 ∷ length methods ∷ (methods ++ connect_domain host hi lo reserved rest);
      replies = [];
    })
      ≡ (err domain_target_rejected, record { incoming = rest; replies = (5 ∷ 0 ∷ []) ∷ [] })
unfolding accept_socks5_connect
accept_socks5_connect_domain methods host rest hi lo reserved h no_userpass no_auth =
    rw
      (
        negotiate_no_auth methods (connect_domain host hi lo reserved rest) [] h no_userpass
            no_auth,
        accept_socks5_connect,
        read_connect_target_domain host rest hi lo reserved ((5 ∷ 0 ∷ []) ∷ []),
      )
      refl
