-- ===== src/Examples/Certificates.antt =====
-- src/connector/secure.c at concrete certificates.
use respondphp.Base.{◌≡◌, refl, ◌↔◌, ◌⊎◌, some, [], ◌∷◌, Bytes, codes, true, arith}
use respondphp.CString.{c_string, str_eq, strchr, strstr}
use respondphp.SecureConnector.Names.{matches_wildcard_name, Accepts, matches_wildcard_name_iff}
use respondphp.SecureConnector.Certificates.{dns, ip_address, peer_accepted}
use respondphp.SecureConnector.Identity.{CommonAccepts, SomeSanAccepts, peer_accepted_iff}

-- A text that is its own UTF-8 form.
abbrev same : Bytes → Bytes
same s = s

-- What follows the certificate's name is not looked at.
matches_wildcard_name_iff_example :
    (matches_wildcard_name (codes "www.a.bc.evil.org") (codes "*.a.bc") ≡ true)
    ↔ Accepts (codes "www.a.bc.evil.org") (codes "*.a.bc")
matches_wildcard_name_iff_example =
    matches_wildcard_name_iff (codes "www.a.bc.evil.org") (codes "*.a.bc")

accepts_more : matches_wildcard_name (codes "www.a.bc.evil.org") (codes "*.a.bc") ≡ true
unfolding matches_wildcard_name str_eq strchr strstr
accepts_more = refl

peer_accepted_iff_example :
    (peer_accepted same
        (some (4, codes "a.bc"))
        (dns (codes "*.a.bc") ∷ ip_address (10 ∷ 0 ∷ 0 ∷ 1 ∷ []) ∷ [])
        (codes "10.0.0.1")
      ≡ true)
    ↔ (CommonAccepts (some (4, codes "a.bc")) (c_string (codes "10.0.0.1"))
        ⊎ SomeSanAccepts same
            (c_string (codes "10.0.0.1"))
            (dns (codes "*.a.bc") ∷ ip_address (10 ∷ 0 ∷ 0 ∷ 1 ∷ []) ∷ []))
peer_accepted_iff_example =
    peer_accepted_iff same (some (4, codes "a.bc"))
      (dns (codes "*.a.bc") ∷ ip_address (10 ∷ 0 ∷ 0 ∷ 1 ∷ []) ∷ []) (codes "10.0.0.1")
      ((omega arith, (omega arith, (omega arith, (omega arith, tt)))), tt)
