-- ===== src/Hash/Tests.antt =====
-- Known hashes, and the theorems at texts.
use egl_utils_cpp.Prelude.{◌%◌, ◌≡◌, refl, some, length, get_elem?, codes, arith}
use egl_utils_cpp.Hash.{fnv1a_64, fnv1a_32, murmur3_x86_32}
use egl_utils_cpp.Hash.Sha256.{total, padded, compress, blocks, pad_total, sha256, sha256_hex}
use egl_utils_cpp.Hash.Padding.{padded_message, padded-padded_message}
use egl_utils_cpp.Hash.Hex.{AreBytes, AreHexDigits, unhex, unhex-sha256_hex}

fnv_a : fnv1a_64 (codes "a") ≡ 0xaf63dc4c8601ec8c
fnv_a = refl

fnv_a_32 : fnv1a_32 (codes "a") ≡ 0xe40c292c
fnv_a_32 = refl

murmur_hello : murmur3_x86_32 (codes "hello") 0 ≡ 0x248bfa47
unfolding murmur3_x86_32
murmur_hello = refl

sha256_abc :
    sha256_hex (codes "abc")
    ≡ codes "ba7816bf8f01cfea414140de5dae2223b00361a396177a9cb410ff61f20015ad"
unfolding sha256_hex total pad_total padded compress blocks sha256
sha256_abc = refl

unhex-sha256_hex_example :
    AreBytes (sha256 (codes "abc"))
    × (length (sha256 (codes "abc")) ≡ 32)
    × (length (sha256_hex (codes "abc")) ≡ 64)
    × AreHexDigits (sha256_hex (codes "abc"))
    × (unhex (sha256_hex (codes "abc")) ≡ sha256 (codes "abc"))
unhex-sha256_hex_example = unhex-sha256_hex (codes "abc")

total_abc : total (codes "abc") ≡ 64
unfolding total pad_total
total_abc = refl

padded-padded_message_example :
    (total (codes "abc") % 64 ≡ 0)
    × (length (padded_message (codes "abc")) ≡ total (codes "abc"))
    × (get_elem? (padded_message (codes "abc")) 63 ≡ some (padded (codes "abc") 63))
padded-padded_message_example =
    padded-padded_message (codes "abc") 63 (omega arith) (omega (arith, total_abc))
