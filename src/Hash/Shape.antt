-- ===== src/Hash/Shape.antt =====
-- The shape of the padded message and of the digest, and a known digest.
use my_bookstore.Base.{
  length-replicate, ◌^◌, ◌*◌, ◌++◌, ◌∷◌, length-append, zero, arith, suc, ◌<◌, ◌≤◌, refl, replicate,
  ◌%◌, ◌-◌, length, ◌+◌, ◌≡◌, Text, codes, ℕ,
}
use my_bookstore.Hash.{
  ℕ, Text, zeros_needed, store_be64, pad, digest_of, sha256, hex_of, sha256_hex, rotr, load_be32,
  round_constants, load_words, next_word, extend_words, round, rounds, compress, blocks, hex_digit,
}

-- The filling loop stops by its own test within 64 rounds.
zeros_needed_lem :
    (fuel size : ℕ) → (56 + 128 - size % 64) % 64 < fuel → (size + zeros_needed fuel size) % 64 ≡ 56
unfolding zeros_needed
zeros_needed_lem zero size h = absurd (omega arith)
zeros_needed_lem (suc fuel) size h = ground (arith, zeros_needed_lem fuel (size + 1))

length-pad :
    (text : Text) → length (pad text) ≡ length text + 1 + zeros_needed 64 (length text + 1) + 8
unfolding pad store_be64
length-pad text = omega (
  arith,
  length-append text (
      0x80
      ∷ (replicate (zeros_needed 64 (length text + 1)) 0 ++ store_be64 (length text * 8 % 2 ^ 64))),
  length-append (replicate (zeros_needed 64 (length text + 1)) 0)
      (store_be64 (length text * 8 % 2 ^ 64)),
  length-replicate {A = ℕ} (zeros_needed 64 (length text + 1)) 0,
)

-- The padded message is a whole number of 64-byte blocks, at least nine bytes longer than the
-- text.
pub pad_blocks :
    (text : Text) → (length (pad text) % 64 ≡ 0) × (length text + 9 ≤ length (pad text))
pad_blocks text =
    omega (arith, length-pad text, zeros_needed_lem 64 (length text + 1) (omega arith))

-- The digest in hexadecimal has 64 characters.
pub length-sha256_hex : (text : Text) → length (sha256_hex text) ≡ 64
unfolding sha256_hex sha256 digest_of hex_of
length-sha256_hex text = refl

abc :
    sha256_hex (codes "abc")
    ≡ codes "ba7816bf8f01cfea414140de5dae2223b00361a396177a9cb410ff61f20015ad"
unfolding sha256_hex sha256 digest_of hex_of rotr load_be32 store_be64 zeros_needed pad
    round_constants load_words next_word extend_words round rounds compress blocks hex_digit
abc = refl
