-- ===== src/Http/Conn/Send/Pieces.antt =====
-- A file reply of two pieces leaves in order and as a whole, if the head leaves at once.
-- The bytes that `writev` took are no more than what is left.
use my_bookstore.Http.Conn.{file_request}
use my_bookstore.Http.Conn.Answer.{Answer}
use my_bookstore.Http.Conn.Send.{
  and_later, running, fails, waits, running, send_loop, send_all, prepend, all_sent, Sent, Ending,
  failed, again, only_file, count_sent, sent, Event, gather, adjust,
}
use my_bookstore.Http.Conn.Reply.{
  write_buf_size, file_head, write_for, two_pieces, process_write, Out,
}
use my_bookstore.Base.{
  wrap32-difference, wrap32-pos, wrap32-sum, replicate, is_empty, take-append, take-sum, Bool,
  take-drop, drop-drop, length-append, ap, zero, false, inr, inl, leb, Bool-cases, suc, refl, subst,
  drop-append_past, sym, take, ◌∙◌, ◌≢◌, length-drop, true, leb_ℤ, pos_part, take_all, arith, ◌++◌,
  [], drop, ◌-◌, ◌≤◌, pos, ◌^◌, ◌∷◌, ◌+ℤ◌, ◌+◌, ◌-ℤ◌, ◌<◌, ◌≡◌, List, length, wrap32, Text, ℕ,
}

abbrev pub Fits : ℕ → List Event → Type 0
Fits left [] = Unit
Fits left (sent n ∷ events) = (n ≤ left) × Fits (left - n) events
Fits left (again ∷ events) = Fits left events
Fits left (failed ∷ events) = Fits left events

offset_past : (k h : ℕ) → h ≤ k → pos_part (pos k -ℤ pos h) ≡ k - h
unfolding ◌-ℤ◌
offset_past k h p = ground arith

module _ (head body : Text) where
  abbrev total : ℕ
  total = length head + length body

  -- `k` bytes of the head and the file are gone, and the pieces name the others.
  pub record Ready (k : ℕ) (o : Out) : Type 0 where
    pub buf : o.write_buf ≡ head
    pub file : o.file ≡ body
    pub two : o.iv_count ≡ 2
    pub gone : o.bytes_sent ≡ pos k
    pub left : o.bytes_to_send ≡ pos (total - k)
    pub first : o.iv0.len ≤ length head
    pub gathers : gather o ≡ drop k (head ++ body)
    pub unfinished : k < total

  count_sent-bytes :
      (k n : ℕ) (o : Out)
      → total < 2 ^ 31
      → Ready k o
      → n ≤ total - k
      → ((count_sent n o).bytes_sent ≡ pos (k + n))
        × ((count_sent n o).bytes_to_send ≡ pos (total - (k + n)))
  count_sent-bytes k n o h r f = (
    ap (λ b. wrap32 (b +ℤ pos n)) r.gone ∙ wrap32-sum k n (omega (arith, r.unfinished)),
    ap (λ b. wrap32 (b -ℤ pos n)) r.left
        ∙ wrap32-difference (total - k) n f (omega arith)
        ∙ ap pos (omega arith),
  )

  gather-only_file :
      (k : ℕ) (o : Out)
      → o.file ≡ body
      → o.iv_count ≡ 2
      → o.write_buf ≡ head
      → o.bytes_sent ≡ pos k
      → o.bytes_to_send ≡ pos (total - k)
      → length head ≤ k
      → gather (only_file o) ≡ drop k (head ++ body)
  unfolding gather
  gather-only_file k o f two b s l past =
      rw (two, f, b, s, l, offset_past k (length head) past)
        (take_all (drop (k - length head) body) (total - k)
            (omega (arith, length-drop (k - length head) body))
          ∙ sym (drop-append_past head body k past))

  -- A part of the bytes behind the head leaves.
  Ready-adjust :
      (k n : ℕ) (o : Out)
      → total < 2 ^ 31
      → Ready k o
      → n ≤ total - k
      → length head ≤ k + n
      → k + n < total
      → Ready (k + n) (adjust n (count_sent n o))
  unfolding adjust
  Ready-adjust k n o h r f past more =
      let (g, l) = count_sent-bytes k n o h r f in
      let one = gather-only_file (k + n) (count_sent n o) r.file r.two r.buf g l past in
      let covered : leb_ℤ (pos o.iv0.len) (count_sent n o).bytes_sent ≡ true =
        rw g (ground (arith, r.first)) in
      rw covered (record {
        buf = r.buf;
        file = r.file;
        two = r.two;
        gone = g;
        left = l;
        first = omega arith;
        gathers = one;
        unfinished = more;
      })

  -- The first bytes that leave behind `k` bytes take the rest of the head with them.
  abbrev pub Past : ℕ → List Event → Type 0
  Past k [] = Unit
  Past k (sent n ∷ events) = length head ≤ k + n
  Past k (again ∷ events) = Past k events
  Past k (failed ∷ events) = Past k events

  Past-all : (k : ℕ) (events : List Event) → length head ≤ k → Past k events
  Past-all k [] h = tt
  Past-all k (sent n ∷ events) h = omega arith
  Past-all k (again ∷ events) h = Past-all k events h
  Past-all k (failed ∷ events) h = Past-all k events h

  -- One call or several, when `k` bytes were gone before: everything has left, or the next bytes of
  -- the reply have, and the pieces name the others.
  pub data Delivers (k : ℕ) (s : Sent) : Type 0 where
    whole_reply : s.ending ≡ all_sent → s.wire ≡ drop k (head ++ body) → Delivers k s
    part :
        (n : ℕ)
        → s.ending ≢ all_sent
        → s.wire ≡ take n (drop k (head ++ body))
        → Ready (k + n) s.out
        → Fits (total - (k + n)) s.later
        → Past (k + n) s.later
        → Delivers k s

  Delivers-stop :
      (k : ℕ) (o : Out) (events : List Event) (ending : Ending)
      → ending ≢ all_sent
      → Ready k o
      → Fits (total - k) events
      → Past k events
      → Delivers k (record { ending = ending; out = o; wire = []; later = events })
  Delivers-stop k o events ending ne r f p =
      let z : k ≡ k + 0 = omega arith in
      part 0 ne refl (subst (λ m. Ready m o) z r) (subst (λ m. Fits (total - m) events) z f)
        (subst (λ m. Past m events) z p)

  Delivers-prepend :
      (k n : ℕ) (s : Sent)
      → Delivers (k + n) s
      → Delivers k (prepend (take n (drop k (head ++ body))) s)
  Delivers-prepend k n s (whole_reply e w) = whole_reply e (
      ap (λ l. take n (drop k (head ++ body)) ++ l) (w ∙ sym (drop-drop k n (head ++ body)))
      ∙ take-drop n (drop k (head ++ body)))
  Delivers-prepend k n s (part m ne w r f p) =
      let z : k + n + m ≡ k + (n + m) = omega arith in
      part (n + m) ne
        (ap (λ l. take n (drop k (head ++ body)) ++ l)
            (w ∙ ap (take m) (sym (drop-drop k n (head ++ body))))
          ∙ take-sum n m (drop k (head ++ body)))
        (subst (λ m. Ready m s.out) z r) (subst (λ m. Fits (total - m) s.later) z f)
        (subst (λ m. Past m s.later) z p)

  send_loop-Delivers :
      (events : List Event) (k : ℕ) (o : Out)
      → total < 2 ^ 31
      → Ready k o
      → Fits (total - k) events
      → Past k events
      → Delivers k (send_loop events o)
  unfolding send_loop
  send_loop-Delivers [] k o h r f p = Delivers-stop k o [] running (λ e. cc e) r tt tt
  send_loop-Delivers (again ∷ events) k o h r f p = Delivers-stop k o events waits (λ e. cc e) r f p
  send_loop-Delivers (failed ∷ events) k o h r f p =
      Delivers-stop k o events fails (λ e. cc e) r f p
  send_loop-Delivers (sent n ∷ events) k o h r f p =
      let (g, l) = count_sent-bytes k n o h r f.0 in
      elim (Bool-cases (leb total (k + n))) [
        | inl e ↦
            let stop : leb_ℤ (count_sent n o).bytes_to_send (pos 0) ≡ true =
              rw l (ground (arith, e)) in
            rw stop (
              whole_reply refl (
                ap (take n) r.gathers
                ∙ take_all (drop k (head ++ body)) n
                    (ground (arith, e, length-drop k (head ++ body), length-append head body))))
        | inr e ↦
            let on : leb_ℤ (count_sent n o).bytes_to_send (pos 0) ≡ false =
              rw l (ground (arith, e)) in
            rw (on, r.gathers)
              (Delivers-prepend k n (send_loop events (adjust n (count_sent n o))) (
                send_loop-Delivers events (k + n) (adjust n (count_sent n o)) h
                  (Ready-adjust k n o h r f.0 p (ground (arith, e)))
                  (subst (λ m. Fits m events) (omega arith) f.1) (Past-all (k + n) events p)))
      ]

  and_later-Delivers :
      (calls k : ℕ) (ending : Ending) (s : Sent)
      → total < 2 ^ 31
      → s.ending ≡ ending
      → ((events : List Event) (k : ℕ) (o : Out)
          → Ready k o
          → Fits (total - k) events
          → Past k events
          → Delivers k (send_all calls events o))
      → Delivers k s
      → Delivers k (and_later (send_all calls) ending s)
  and_later-Delivers calls k all_sent s h e again_ d = d
  and_later-Delivers calls k fails s h e again_ d = d
  and_later-Delivers calls k running s h e again_ d = d
  and_later-Delivers calls k waits s h e again_ (whole_reply w x) = cc (e, w)
  and_later-Delivers calls k waits s h e again_ (part n ne w r f p) =
      rw w
        (Delivers-prepend k n (send_all calls s.later s.out) (again_ s.later (k + n) s.out r f p))

  send_all-Delivers :
      (calls : ℕ) (events : List Event) (k : ℕ) (o : Out)
      → total < 2 ^ 31
      → Ready k o
      → Fits (total - k) events
      → Past k events
      → Delivers k (send_all calls events o)
  unfolding send_all
  send_all-Delivers zero events k o h r f p = Delivers-stop k o events running (λ e. cc e) r f p
  send_all-Delivers (suc calls) events k o h r f p =
      and_later-Delivers calls k (send_loop events o).ending (send_loop events o) h refl
        (λ es j o' r' f' p'. send_all-Delivers calls es j o' h r' f' p')
        (send_loop-Delivers events k o h r f p)

two_pieces-Ready :
    (a : Answer) (head : Text)
    → 0 < length a.file
    → total head a.file < 2 ^ 31
    → Ready head a.file 0 (two_pieces a head)
unfolding gather
two_pieces-Ready a head ne h = record {
  buf = refl;
  file = refl;
  two = refl;
  gone = refl;
  left =
      ap (λ b. wrap32 (pos (length head) +ℤ b)) (wrap32-pos (length a.file) (omega arith))
      ∙ wrap32-sum (length head) (length a.file) h
      ∙ ap pos (omega arith);
  first = omega arith;
  gathers =
      ap (λ l. l ++ take (length a.file) a.file)
        (take-append head (replicate (write_buf_size - length head) 0))
      ∙ ap (λ l. head ++ l) (take_all a.file (length a.file) (omega arith));
  unfinished = omega arith;
}

non_nil : (s : Text) → 0 < length s → is_empty s ≡ false
non_nil [] h = absurd (omega arith)
non_nil (c ∷ s) h = refl

write_for-file :
    (linger : Bool) (a : Answer)
    → is_empty a.file ≡ false
    → (write_for file_request linger a).1 ≡ two_pieces a (file_head linger a)
unfolding write_for
write_for-file linger a e = rw e refl

file-two_pieces :
    (linger : Bool) (a : Answer)
    → a.code ≡ file_request
    → 0 < length a.file
    → (process_write linger a).1 ≡ two_pieces a (file_head linger a)
unfolding process_write
file-two_pieces linger a c ne =
    ap (λ code. (write_for code linger a).1) c ∙ write_for-file linger a (non_nil a.file ne)

-- The reply for a file that is not empty, whose size with the head fits in an `int`: when the first
-- bytes that leave take the whole head with them, then whatever `writev` takes in each call, and
-- however often the socket makes `write` wait, what has left is the beginning of the head and the
-- file in order, and all of it when `write` says that the reply is done.
pub process_write-send_all :
    (linger : Bool) (a : Answer) (calls : ℕ) (events : List Event)
    → a.code ≡ file_request
    → 0 < length a.file
    → length (file_head linger a) + length a.file < 2 ^ 31
    → Fits (length (file_head linger a) + length a.file) events
    → Past (file_head linger a) a.file 0 events
    → Delivers (file_head linger a) a.file 0 (send_all calls events (process_write linger a).1)
process_write-send_all linger a calls events c ne h f p =
    let head = file_head linger a in
    let fits = subst (λ n. Fits n events) (omega arith) f in
    rw (file-two_pieces linger a c ne) (
      send_all-Delivers head a.file calls events 0 (two_pieces a head) h
        (two_pieces-Ready a head ne h) fits p)
