-- ===== src/Socks/Tests.antt =====
-- Runs of the SOCKS5 front end.
use mix_tor.Base.{◌+◌, arith, ◌*◌, ◌≡◌, replicate, ◌++◌, ◌∷◌, [], some, ok, err, refl}
use mix_tor.Base.Random.{Rng}
use mix_tor.Samples.{zeros}
use mix_tor.Hex.{key_to_hex}
use mix_tor.Socks.{v4, accept_socks5_connect, extract_cert, cert_key, domain_target_rejected}
use mix_tor.Socks.Accept.{
  userpass, connect_v4, connect_domain, accept_socks5_connect-userpass,
  accept_socks5_connect_domain,
}
use mix_tor.Socks.Cert.{extract_cert-key_to_hex}

accept_socks5_connect-userpass_example :
    accept_socks5_connect (record {
      incoming =
          5 ∷ 2 ∷ (0 ∷ 2 ∷ [])
          ++ userpass (97 ∷ []) (0 ∷ []) (connect_v4 (127 ∷ 0 ∷ 0 ∷ 1 ∷ []) 35 41 0 (9 ∷ []));
      replies = [];
    })
    ≡ (
      ok (v4 (127 ∷ 0 ∷ 0 ∷ 1 ∷ []) (35 * 256 + 41), record { cert = extract_cert (97 ∷ 0 ∷ []) }),
      record {
        incoming = 9 ∷ [];
        replies = (5 ∷ 2 ∷ []) ∷ (1 ∷ 0 ∷ []) ∷ (5 ∷ 0 ∷ 0 ∷ 1 ∷ 0 ∷ 0 ∷ 0 ∷ 0 ∷ 0 ∷ 0 ∷ []) ∷ [];
      },
    )
accept_socks5_connect-userpass_example =
    accept_socks5_connect-userpass (0 ∷ 2 ∷ []) (97 ∷ []) (0 ∷ []) (127 ∷ 0 ∷ 0 ∷ 1 ∷ []) (9 ∷ [])
      35 41 0 (omega arith) refl refl

domain_request :
    accept_socks5_connect (record {
      incoming = 5 ∷ 1 ∷ (0 ∷ []) ++ connect_domain (97 ∷ 46 ∷ 98 ∷ []) 0 80 0 [];
      replies = [];
    })
    ≡ (err domain_target_rejected, record { incoming = []; replies = (5 ∷ 0 ∷ []) ∷ [] })
domain_request =
    accept_socks5_connect_domain (0 ∷ []) (97 ∷ 46 ∷ 98 ∷ []) [] 0 80 0 (omega arith) refl refl

cert_found :
    extract_cert (cert_key ++ (key_to_hex (replicate 32 0) ++ (59 ∷ 48 ∷ [])))
    ≡ some (replicate 32 0)
cert_found =
    extract_cert-key_to_hex (replicate 32 0) (59 ∷ 48 ∷ []) (Rng.fill-IsByte zeros 32 0) refl
