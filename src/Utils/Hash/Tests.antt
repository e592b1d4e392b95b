-- ===== src/Utils/Hash/Tests.antt =====
-- The hashes of known texts.
use dumais_lib.Prelude.{◌≡◌, refl, codes}
use dumais_lib.Utils.Hash.{to_hex}
use dumais_lib.Utils.Hash.Sha1.{sha1}
use dumais_lib.Utils.Hash.Sha256.{sha256}
use dumais_lib.Utils.Hash.Md5.{compute_md5}

sha1_abc_test : to_hex (sha1 (codes "abc")) ≡ codes "a9993e364706816aba3e25717850c26c9cd0d89d"
unfolding sha1 to_hex
sha1_abc_test = refl

sha256_abc_test :
    to_hex (sha256 (codes "abc"))
    ≡ codes "ba7816bf8f01cfea414140de5dae2223b00361a396177a9cb410ff61f20015ad"
unfolding sha256 to_hex
sha256_abc_test = refl

md5_abc_test : compute_md5 (codes "abc") ≡ codes "900150983cd24fb0d6963f7d28e17f72"
unfolding compute_md5
md5_abc_test = refl
