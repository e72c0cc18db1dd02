-- ===== src/Http/Conn/Send/Lost.antt =====
-- A reply of the gateway is not sent on from where a part of it ended.
use my_bookstore.Http.Conn.Send.{
  Event, later_head, gather, adjust, sent, sent, send_loop, count_sent,
}
use my_bookstore.Base.{
  false, leb_ℤ, take_all, List, wrap32-difference, wrap32-pos, wrap32-sum, ◌++◌, refl, zero, ◌^◌,
  ◌∙◌, ◌∷◌, ap, arith, length, [], pos, suc, ◌-◌, ◌<◌, replicate, ◌≡◌, Bool, drop, take, ◌+◌, ◌-ℤ◌,
  ◌≤◌, wrap32, ℕ,
}
use my_bookstore.Http.Conn.Reply.{write_buf_size, in_api, one_piece, write_for, Out, process_write}
use my_bookstore.Http.Conn.Answer.{Answer}
use my_bookstore.Http.Conn.{ℕ, api_response}

drop-replicate :
    {A : Type 0} (m j : ℕ) (a : A) → m ≤ j → drop m (replicate j a) ≡ replicate (j - m) a
drop-replicate zero j a h = ap (λ n. replicate n a) (omega arith)
drop-replicate (suc m) zero a h = absurd (omega arith)
drop-replicate (suc m) (suc j) a h =
    drop-replicate m j a (omega arith) ∙ ap (λ n. replicate n a) (omega arith)

min_part : (m j n : ℕ) → m ≤ j → m ≤ n → take {A = ℕ} m (take j (replicate n 0)) ≡ replicate m 0
min_part zero j n h k = refl
min_part (suc m) zero n h k = absurd (omega arith)
min_part (suc m) (suc j) zero h k = absurd (omega arith)
min_part (suc m) (suc j) (suc n) h k = ap (λ l. 0 ∷ l) (min_part m j n (omega arith) (omega arith))

-- The write buffer behind `n` bytes, where nothing was written.
unwritten :
    (n m j : ℕ)
    → m ≤ j
    → n + m ≤ write_buf_size
    → take {A = ℕ} m (take j (drop n (replicate write_buf_size 0))) ≡ replicate m 0
unwritten n m j h k =
    ap (λ l. take {A = ℕ} m (take j l)) (drop-replicate n write_buf_size 0 (omega arith))
    ∙ min_part m j (write_buf_size - n) h (omega arith)

-- A round of `send_loop` that is not the last one.
send_loop-part :
    (n : ℕ) (events : List Event) (o : Out)
    → leb_ℤ (count_sent n o).bytes_to_send (pos 0) ≡ false
    → (send_loop (sent n ∷ events) o).wire
      ≡ take n (gather o) ++ (send_loop events (adjust n (count_sent n o))).wire
unfolding send_loop
send_loop-part n events o e = rw e refl

-- The head is not complete behind these bytes.
adjust-head :
    (n : ℕ) (o : Out) → leb_ℤ (pos o.iv0.len) o.bytes_sent ≡ false → adjust n o ≡ later_head n o
unfolding adjust
adjust-head n o e = rw e refl

module _ (a : Answer) (n m : ℕ) (p : 0 < n) (h : length a.api_text < 2 ^ 31)
    (r : n + m ≤ write_buf_size) (t : n + m < length a.api_text) where
  abbrev reply : Out
  reply = one_piece in_api a.api_text a []

  to_send : reply.bytes_to_send ≡ pos (length a.api_text)
  to_send = wrap32-pos (length a.api_text) h

  left_first : (count_sent n reply).bytes_to_send ≡ pos (length a.api_text - n)
  left_first =
      ap (λ b. wrap32 (b -ℤ pos n)) to_send
      ∙ wrap32-difference (length a.api_text) n (omega arith) h

  sent_first : (count_sent n reply).bytes_sent ≡ pos n
  sent_first = wrap32-sum 0 n (omega arith) ∙ ap pos (omega arith)

  abbrev second : Out
  second = later_head n (count_sent n reply)

  left_second : (count_sent m second).bytes_to_send ≡ pos (length a.api_text - n - m)
  left_second =
      ap (λ b. wrap32 (b -ℤ pos m)) left_first
      ∙ wrap32-difference (length a.api_text - n) m (omega arith) (omega arith)

  gather-reply : take n (gather reply) ≡ take n a.api_text
  unfolding gather
  gather-reply = ap (take n) (take_all a.api_text (length a.api_text) (omega arith))

  gather-second : take m (gather second) ≡ replicate m 0
  unfolding gather
  gather-second = rw sent_first (unwritten n m (length a.api_text - n) (omega arith) r)

  nothing_more : (o : Out) → (send_loop [] o).wire ≡ []
  unfolding send_loop
  nothing_more o = refl

  part-wire :
      (send_loop (sent n ∷ sent m ∷ []) reply).wire ≡ take n a.api_text ++ (replicate m 0 ++ [])
  part-wire =
      send_loop-part n (sent m ∷ []) reply (rw left_first (ground arith))
      ∙ ap (λ o. take n (gather reply) ++ (send_loop (sent m ∷ []) o).wire)
          (adjust-head n (count_sent n reply) (rw sent_first (ground arith)))
      ∙ ap (λ l. take n (gather reply) ++ l)
          (send_loop-part m [] second (rw left_second (ground arith)))
      ∙ ap (λ l. take n (gather reply) ++ (take m (gather second) ++ l))
          (nothing_more (adjust m (count_sent m second)))
      ∙ ap (λ l. l ++ (take m (gather second) ++ [])) gather-reply
      ∙ ap (λ l. take n a.api_text ++ (l ++ [])) gather-second

-- When `writev` takes a part of the gateway's reply, and then at most as many bytes as the write
-- buffer holds behind that number, the second part is zero bytes of the write buffer.
pub process_write-api_part :
    (linger : Bool) (a : Answer) (n m : ℕ)
    → a.code ≡ api_response
    → 0 < n
    → length a.api_text < 2 ^ 31
    → n + m ≤ write_buf_size
    → n + m < length a.api_text
    → (send_loop (sent n ∷ sent m ∷ []) (process_write linger a).1).wire
      ≡ take n a.api_text ++ (replicate m 0 ++ [])
unfolding process_write write_for send_loop
process_write-api_part linger a n m c p h r t =
    ap (λ code. (send_loop (sent n ∷ sent m ∷ []) (write_for code linger a).1).wire) c
    ∙ part-wire a n m p h r t
