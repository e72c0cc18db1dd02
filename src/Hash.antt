-- ===== src/Hash.antt =====
-- SHA-256 as src/app/util/sha256.h computes it, over bytes and 32-bit words that are numbers below
-- their modulus.
pub mod Shape
use my_bookstore.Base.{
  drop, nat_eq, zero, suc, ltb, replicate, [], get_or, if◌then◌else◌, length, ◌%◌, ◌*◌, ◌++◌, ◌-◌,
  ◌/◌, ◌^◌, ◌∷◌, List, Text, ℕ, ◌+◌,
}
use Prim.Native.Nat.{bit_and, bit_or, bit_xor}

abbrev word : ℕ
word = 2 ^ 32

-- `x >> n` and `x << n` on 32 bits.
abbrev shr : ℕ → ℕ → ℕ
shr x n = x / 2 ^ n

abbrev shl : ℕ → ℕ → ℕ
shl x n = x * 2 ^ n % word

unfoldable pub rotr : ℕ → ℕ → ℕ
rotr x n = bit_or (shr x n) (shl x (32 - n))

unfoldable pub load_be32 : List ℕ → ℕ
load_be32 (a ∷ b ∷ c ∷ d ∷ rest) = bit_or (bit_or (bit_or (shl a 24) (shl b 16)) (shl c 8)) d
load_be32 _ = 0

unfoldable pub store_be64 : ℕ → List ℕ
store_be64 v =
    v / 2 ^ 56 % 256
    ∷ v / 2 ^ 48 % 256
    ∷ v / 2 ^ 40 % 256
    ∷ v / 2 ^ 32 % 256
    ∷ v / 2 ^ 24 % 256
    ∷ v / 2 ^ 16 % 256
    ∷ v / 2 ^ 8 % 256
    ∷ v % 256
    ∷ []

-- The table `K`.
unfoldable pub round_constants : List ℕ
round_constants =
    0x428a2f98 ∷ 0x71374491 ∷ 0xb5c0fbcf ∷ 0xe9b5dba5 ∷ 0x3956c25b ∷ 0x59f111f1 ∷ 0x923f82a4
    ∷ 0xab1c5ed5 ∷ 0xd807aa98 ∷ 0x12835b01 ∷ 0x243185be ∷ 0x550c7dc3 ∷ 0x72be5d74 ∷ 0x80deb1fe
    ∷ 0x9bdc06a7 ∷ 0xc19bf174 ∷ 0xe49b69c1 ∷ 0xefbe4786 ∷ 0x0fc19dc6 ∷ 0x240ca1cc ∷ 0x2de92c6f
    ∷ 0x4a7484aa ∷ 0x5cb0a9dc ∷ 0x76f988da ∷ 0x983e5152 ∷ 0xa831c66d ∷ 0xb00327c8 ∷ 0xbf597fc7
    ∷ 0xc6e00bf3 ∷ 0xd5a79147 ∷ 0x06ca6351 ∷ 0x14292967 ∷ 0x27b70a85 ∷ 0x2e1b2138 ∷ 0x4d2c6dfc
    ∷ 0x53380d13 ∷ 0x650a7354 ∷ 0x766a0abb ∷ 0x81c2c92e ∷ 0x92722c85 ∷ 0xa2bfe8a1 ∷ 0xa81a664b
    ∷ 0xc24b8b70 ∷ 0xc76c51a3 ∷ 0xd192e819 ∷ 0xd6990624 ∷ 0xf40e3585 ∷ 0x106aa070 ∷ 0x19a4c116
    ∷ 0x1e376c08 ∷ 0x2748774c ∷ 0x34b0bcb5 ∷ 0x391c0cb3 ∷ 0x4ed8aa4a ∷ 0x5b9cca4f ∷ 0x682e6ff3
    ∷ 0x748f82ee ∷ 0x78a5636f ∷ 0x84c87814 ∷ 0x8cc70208 ∷ 0x90befffa ∷ 0xa4506ceb ∷ 0xbef9a3f7
    ∷ 0xc67178f2 ∷ []

-- The eight words `a` to `hh`, and `h[0]` to `h[7]`.
pub record Words : Type 0 where
  pub a : ℕ
  pub b : ℕ
  pub c : ℕ
  pub d : ℕ
  pub e : ℕ
  pub f : ℕ
  pub g : ℕ
  pub h : ℕ

abbrev initial : Words
initial = record {
  a = 0x6a09e667;
  b = 0xbb67ae85;
  c = 0x3c6ef372;
  d = 0xa54ff53a;
  e = 0x510e527f;
  f = 0x9b05688c;
  g = 0x1f83d9ab;
  h = 0x5be0cd19;
}

-- Zero bytes until the size is 56 modulo 64; 64 rounds are enough.
unfoldable pub zeros_needed : ℕ → ℕ → ℕ
zeros_needed zero size = 0
zeros_needed (suc fuel) size =
    let more = suc (zeros_needed fuel (size + 1)) in if nat_eq (size % 64) 56 then 0 else more

-- The padded message.
unfoldable pub pad : Text → List ℕ
unfolding zeros_needed store_be64
pad text =
    let bit_len = length text * 8 % 2 ^ 64 in
    let marked = length text + 1 in
    text ++ (0x80 ∷ (replicate (zeros_needed 64 marked) 0 ++ store_be64 bit_len))

-- The first 16 words of a block.
unfoldable pub load_words : ℕ → List ℕ → List ℕ
load_words zero block = []
load_words (suc n) block = load_be32 block ∷ load_words n (drop 4 block)

-- One more word of the schedule.
unfoldable pub next_word : List ℕ → ℕ → ℕ
next_word w i =
    let p15 = get_or w (i - 15) 0 in
    let p2 = get_or w (i - 2) 0 in
    let s0 = bit_xor (bit_xor (rotr p15 7) (rotr p15 18)) (shr p15 3) in
    let s1 = bit_xor (bit_xor (rotr p2 17) (rotr p2 19)) (shr p2 10) in
    (get_or w (i - 16) 0 + s0 + get_or w (i - 7) 0 + s1) % word

unfoldable pub extend_words : ℕ → List ℕ → List ℕ
extend_words zero w = w
extend_words (suc n) w = extend_words n (w ++ next_word w (length w) ∷ [])

-- One of the 64 rounds, with `k = K[i]` and `w = w[i]`.
unfoldable pub round : Words → ℕ → ℕ → Words
round v k w =
    let S1 = bit_xor (bit_xor (rotr v.e 6) (rotr v.e 11)) (rotr v.e 25) in
    let ch = bit_xor (bit_and v.e v.f) (bit_and (word - 1 - v.e) v.g) in
    let t1 = (v.h + S1 + ch + k + w) % word in
    let S0 = bit_xor (bit_xor (rotr v.a 2) (rotr v.a 13)) (rotr v.a 22) in
    let maj = bit_xor (bit_xor (bit_and v.a v.b) (bit_and v.a v.c)) (bit_and v.b v.c) in
    let t2 = (S0 + maj) % word in
    record {
      a = (t1 + t2) % word;
      b = v.a;
      c = v.b;
      d = v.c;
      e = (v.d + t1) % word;
      f = v.e;
      g = v.f;
      h = v.g;
    }

unfoldable pub rounds : List ℕ → List ℕ → Words → Words
rounds [] ws v = v
rounds (k ∷ ks) [] v = v
rounds (k ∷ ks) (w ∷ ws) v = rounds ks ws (round v k w)

abbrev add_words : Words → Words → Words
add_words x y = record {
  a = (x.a + y.a) % word;
  b = (x.b + y.b) % word;
  c = (x.c + y.c) % word;
  d = (x.d + y.d) % word;
  e = (x.e + y.e) % word;
  f = (x.f + y.f) % word;
  g = (x.g + y.g) % word;
  h = (x.h + y.h) % word;
}

-- The body of the loop over the blocks.
unfoldable pub compress : Words → List ℕ → Words
compress h block = add_words h (rounds round_constants (extend_words 48 (load_words 16 block)) h)

-- The loop over the blocks, on as many rounds as the message has bytes at most.
unfoldable pub blocks : ℕ → List ℕ → Words → Words
blocks zero msg h = h
blocks (suc fuel) [] h = h
blocks (suc fuel) (x ∷ msg) h = blocks fuel (drop 63 msg) (compress h (x ∷ msg))

abbrev bytes_of : ℕ → List ℕ
bytes_of w = w / 2 ^ 24 % 256 ∷ w / 2 ^ 16 % 256 ∷ w / 2 ^ 8 % 256 ∷ w % 256 ∷ []

unfoldable pub digest_of : Words → List ℕ
digest_of h =
    bytes_of h.a
    ++ (bytes_of h.b
        ++ (bytes_of h.c
            ++ (bytes_of h.d
                ++ (bytes_of h.e ++ (bytes_of h.f ++ (bytes_of h.g ++ bytes_of h.h))))))

unfoldable pub sha256 : Text → List ℕ
sha256 text = digest_of (blocks (length (pad text)) (pad text) initial)

-- `kHex[n]`
unfoldable pub hex_digit : ℕ → ℕ
hex_digit n = if ltb n 10 then b'0' + n else b'a' + (n - 10)

unfoldable pub hex_of : List ℕ → Text
hex_of [] = []
hex_of (byte ∷ rest) = hex_digit (byte / 16) ∷ hex_digit (byte % 16) ∷ hex_of rest

unfoldable pub sha256_hex : Text → Text
sha256_hex text = hex_of (sha256 text)
