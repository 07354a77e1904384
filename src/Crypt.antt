-- ===== src/Crypt.antt =====
-- `src/crypt`: the hash functions SHA-256, SHA-512 and MD5, which `crypt_sha256.c`, `crypt_sha512.c`
-- and `crypt_md5.c` feed piece by piece.
pub mod Stream
pub mod Sha256
pub mod Sha512
pub mod Md5
pub mod Password
