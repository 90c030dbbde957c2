-- ===== src/RingBuffer/Consume.antt =====
-- Bytes that a reader of lib-sxe-ring-buffer/sxe-ring-buffer.c consumes, and where it joins.
use libsxe.Base.{
  ℕ, ◌+◌, ◌-◌, ◌%◌, ◌^◌, ◌≤◌, ◌<◌, ◌≡◌, refl, ap, ◌∙◌, true, false, not, ◌&&◌, List, ◌++◌, some,
  ◌==◌, leb, le-or-gt, inl, inr, arith, length, drop, length-drop, drop-append_le, drop-drop,
  drop_all,
}
use libsxe.RingBuffer.{Ring, Context, next_iteration, consumed}
use libsxe.RingBuffer.Write.{Holds}
use libsxe.RingBuffer.Read.{SameLap, PreviousLap, Reads, over_run-SameLap, over_run-PreviousLap}

module _ {stream : List ℕ} (r : Ring) (h : Holds r stream) where
  current-le-writen_end : r.current ≤ r.writen_end + 1
  current-le-writen_end = elim (le-or-gt r.iteration 0) [
    | inl z ↦ omega (arith, (h.first_lap (omega (arith, z))).0, h.current)
    | inr p ↦ omega (arith, (h.later_lap p).0, h.current, h.lap_length, h.base_pos)
  ]

  -- What `consumed` gives: the bytes are taken off the front of what is unread.
  pub record TakenOff (c : Context) (len : ℕ) (unread : List ℕ) : Type 0 where
    pub next : Context
    pub result : consumed r c len ≡ some (true, next)
    pub reads : Reads r h next (drop len unread)
    pub left : next.data_block_len ≡ c.data_block_len - len

  module _ (i : r.iteration + 1 < 2 ^ 32) (c : Context) (unread : List ℕ) (len : ℕ)
      (f : len ≤ c.data_block_len) (w : c.data_block_len < 2 ^ 32) where
    consumed-SameLap : SameLap r h c unread → TakenOff c len unread
    unfolding consumed
    consumed-SameLap s =
        let calm = over_run-SameLap r h i c unread s in
        let behind : c.data_block + len ≤ r.current =
          omega (arith, f, s.held, s.inside, s.data_block, h.current) in
        let checked : leb (c.data_block + len) (r.writen_end + 1) ≡ true =
          ground (arith, behind, current-le-writen_end) in
        let stays : (c.data_block + len == r.writen_end + 1
              && not (c.data_block + len == r.current))
            ≡ false =
          ground (arith, behind, current-le-writen_end) in
        let left : (c.data_block_len + 2 ^ 32 - len) % 2 ^ 32 ≡ c.data_block_len - len =
          omega (arith, f, w) in
        record {
          next = record c {
            data_block = c.data_block + len;
            data_block_len = (c.data_block_len + 2 ^ 32 - len) % 2 ^ 32;
          };
          result = rw calm (rw checked (rw stays refl));
          reads = inl (record {
            o = s.o + len;
            itteration = s.itteration;
            data_block = omega (arith, s.data_block);
            inside = omega (arith, f, s.held, s.inside);
            rest = ap (drop len) s.rest ∙ drop-drop len s.o h.lap;
            held = omega (arith, left, s.held);
          });
          left = left;
        }

    consumed-PreviousLap : PreviousLap r h c unread → TakenOff c len unread
    unfolding consumed
    consumed-PreviousLap s =
        let calm = over_run-PreviousLap r h i c unread s in
        let written = (h.later_lap (omega (arith, s.itteration))).0 in
        let checked : leb (c.data_block + len) (r.writen_end + 1) ≡ true =
          ground (arith, f, s.held, s.data_block, s.inside, h.base_pos, written) in
        let left : (c.data_block_len + 2 ^ 32 - len) % 2 ^ 32 ≡ c.data_block_len - len =
          omega (arith, f, w) in
        let within : len ≤ length (drop s.o h.last) =
          omega (arith, f, s.held, length-drop s.o h.last, h.last_length) in
        let rest : drop len unread ≡ drop (s.o + len) h.last ++ h.lap =
          ap (drop len) s.rest
          ∙ drop-append_le len (drop s.o h.last) h.lap within
          ∙ ap (λ bs. bs ++ h.lap) (drop-drop len s.o h.last) in
        elim (le-or-gt r.size (s.o + len)) [
          | inl e ↦
              let turns : (c.data_block + len == r.writen_end + 1
                    && not (c.data_block + len == r.current))
                  ≡ true =
                ground (
                  arith, f, s.held, s.data_block, s.inside, h.base_pos, written, e, h.current,
                  h.lap_length,
                ) in
              let over : ((c.data_block_len + 2 ^ 32 - len) % 2 ^ 32 == 0) ≡ true =
                ground (arith, left, e, s.held) in
              record {
                next = record c {
                  data_block = r.array_base;
                  data_block_len = (c.data_block_len + 2 ^ 32 - len) % 2 ^ 32;
                  itteration = next_iteration c.itteration;
                };
                result = rw calm (rw checked (rw turns (rw over refl)));
                reads = inl (record {
                  o = 0;
                  itteration = omega (arith, i, s.itteration);
                  data_block = omega arith;
                  inside = omega arith;
                  rest =
                      rest
                      ∙ ap (λ bs. bs ++ h.lap)
                          (drop_all (s.o + len) h.last (omega (arith, e, h.last_length)));
                  held = omega (arith, left, e, s.held);
                });
                left = left;
              }
          | inr e ↦
              let stays : (c.data_block + len == r.writen_end + 1
                    && not (c.data_block + len == r.current))
                  ≡ false =
                ground (arith, s.data_block, e, h.base_pos, written) in
              record {
                next = record c {
                  data_block = c.data_block + len;
                  data_block_len = (c.data_block_len + 2 ^ 32 - len) % 2 ^ 32;
                };
                result = rw calm (rw checked (rw stays refl));
                reads = inr (record {
                  o = s.o + len;
                  itteration = s.itteration;
                  data_block = omega (arith, s.data_block);
                  behind = omega (arith, s.behind);
                  inside = e;
                  rest = rest;
                  held = omega (arith, left, s.held);
                });
                left = left;
              }
        ]

    -- A reader that consumes no more than its block passes both assertions, has these bytes no longer to
    -- read and the rest of the block left, also where it goes on at the start of the array.
    pub consumed-Reads : Reads r h c unread → TakenOff c len unread
    consumed-Reads (inl s) = consumed-SameLap s
    consumed-Reads (inr s) = consumed-PreviousLap s
