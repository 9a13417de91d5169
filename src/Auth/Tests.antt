-- ===== src/Auth/Tests.antt =====
-- Test vectors of FIPS 180-4 and RFC 4231.
use sdr_slc_rtld.Base.{◌≡◌, refl, codes}
use sdr_slc_rtld.Auth.Sha256.{sha256, auth_hmac_sha256, sha256_block}
use sdr_slc_rtld.Auth.Verify.{auth_hex}

sha256_abc :
    auth_hex (sha256 (codes "abc"))
    ≡ codes "ba7816bf8f01cfea414140de5dae2223b00361a396177a9cb410ff61f20015ad"
unfolding auth_hex sha256 sha256_block
sha256_abc = refl

hmac_jefe :
    auth_hex (auth_hmac_sha256 (codes "Jefe") (codes "what do ya want for nothing?"))
    ≡ codes "5bdcc146bf60754e6a042426089575c75a003f089d2739839dec58b964ec3843"
unfolding auth_hex auth_hmac_sha256 sha256_block
hmac_jefe = refl
