-- ===== src/Recommend/Embed.antt =====
-- `embed_book` of src/app/recommend/book_embedder.h. The arithmetic of `float` is a parameter.
use my_bookstore.Model.{Book}
use my_bookstore.Base.{
  ◌&&◌, leb, ◌++◌, ◌^◌, get_or, is_empty, map, negsuc, ◌*◌, ◌-◌, ◌||◌, Bool, [], if◌then◌else◌,
  replicate, set, ◌%◌, ◌∷◌, List, Text, pos, ℕ, ℤ, to_lower, is_digit,
}
use Prim.Native.Nat.{bit_xor}

pub record Floats (F : Type 0) : Type 0 where
  pub of_int : ℤ → F
  pub quarter : F
  pub plus : F → F → F
  pub minus : F → F → F
  pub times : F → F → F
  pub divided : F → F → F
  pub root : F → F
  pub less : F → F → Bool
  pub at_most : F → F → Bool
  pub same : F → F → Bool

abbrev pub book_embed_dim : ℕ
book_embed_dim = 64

abbrev is_alnum : ℕ → Bool
is_alnum c = is_digit c || (leb b'a' (to_lower c) && leb (to_lower c) b'z')

-- The loop over a token, in the 64 bits of `std::size_t`.
unfoldable pub hash_token : Text → ℕ → ℕ
hash_token [] hash = hash
hash_token (c ∷ token) hash = hash_token token ((bit_xor hash c * 16777619) % 2 ^ 64)

module _ {F : Type 0} (floats : Floats F) where
  abbrev pub zero_float : F
  zero_float = floats.of_int (pos 0)

  -- `embedding[i] += x`
  unfoldable pub add_at : ℕ → F → List F → List F
  add_at i x embedding = set embedding i (floats.plus (get_or embedding i zero_float) x)

  unfoldable pub count_token : Text → List F → List F
  unfolding hash_token add_at
  count_token token embedding =
      add_at (hash_token token 2166136261 % book_embed_dim) (floats.of_int (pos 1)) embedding

  -- The loop of `append_tokens` with the token so far, and the token behind it.
  unfoldable pub append_from : Text → Text → List F → List F
  unfolding count_token
  append_from [] token embedding = if is_empty token then embedding else count_token token embedding
  append_from (ch ∷ text) token embedding =
      let longer = append_from text (token ++ to_lower ch ∷ []) embedding in
      let same = append_from text [] embedding in
      let counted = append_from text [] (count_token token embedding) in
      if is_alnum ch then longer else if is_empty token then same else counted

  unfoldable pub append_tokens : Text → List F → List F
  unfolding append_from
  append_tokens text embedding = append_from text [] embedding

  unfoldable pub sum_of_squares : List F → F → F
  sum_of_squares [] norm = norm
  sum_of_squares (value ∷ rest) norm =
      sum_of_squares rest (floats.plus norm (floats.times value value))

  unfoldable pub normalize_embedding : List F → List F
  unfolding sum_of_squares
  normalize_embedding embedding =
      let norm = sum_of_squares embedding zero_float in
      if floats.at_most norm zero_float
      then embedding
      else map (λ value. floats.divided value (floats.root norm)) embedding

  -- `static_cast<std::size_t>(book.id) % BOOK_EMBED_DIM`
  unfoldable pub id_slot : ℤ → ℕ
  id_slot (pos n) = n % book_embed_dim
  id_slot (negsuc n) = (2 ^ 64 - 1 - n % 2 ^ 64) % book_embed_dim

  unfoldable pub embed_book : Book → List F
  unfolding append_tokens add_at normalize_embedding id_slot
  embed_book book =
      let words =
        append_tokens book.author
          (append_tokens book.title (replicate book_embed_dim zero_float)) in
      let placed = add_at (id_slot book.id) floats.quarter words in
      normalize_embedding (
        set placed (book_embed_dim - 1)
          (floats.divided (floats.of_int book.price_cents) (floats.of_int (pos 100000))))
