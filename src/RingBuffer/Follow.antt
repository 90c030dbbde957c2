-- ===== src/RingBuffer/Follow.antt =====
-- What a write of lib-sxe-ring-buffer/sxe-ring-buffer.c does to a reader: it has more to read, or is over run.
use libsxe.Base.{
  ℕ, ◌+◌, ◌-◌, ◌^◌, ◌≤◌, ◌<◌, ◌≡◌, ◌⊎◌, refl, ap, sym, ◌∙◌, true, false, List, [], ◌++◌, ◌==◌,
  ==_iff, le-or-gt, inl, inr, arith, length, take, drop, length-append, length-drop, take-append,
  drop-append_ge, drop-append_le, drop-drop, drop_all, append-nil, append_assoc,
}
use libsxe.RingBuffer.{Ring, Context, end, next_iteration, advance, write_at, over_run}
use libsxe.RingBuffer.Write.{Holds, appended, write_at-current}
use libsxe.RingBuffer.Read.{SameLap, PreviousLap, Reads, lap-bytes, drop-PreviousLap}

-- The words of the ring that readers look at.
pub record Words (r : Ring) (lap place : ℕ) (memory : List ℕ) (r' : Ring) : Type 0 where
  pub array_base : r'.array_base ≡ r.array_base
  pub size : r'.size ≡ r.size
  pub iteration : r'.iteration ≡ lap
  pub current : r'.current ≡ place
  pub bytes : r'.bytes ≡ memory

pub inside-Words :
    (r : Ring) (buf : List ℕ)
    → r.current + length buf < end r + 1
    → Words r r.iteration (r.current + length buf) (write_at r r.current buf) (appended r buf)
unfolding advance
inside-Words r buf e =
    let test : (r.current + length buf == end r + 1) ≡ false = ground (arith, e) in
    rw test
      (record { array_base = refl; size = refl; iteration = refl; current = refl; bytes = refl })

full-Words :
    (r : Ring) (buf : List ℕ)
    → r.current + length buf ≡ end r + 1
    → Words r (next_iteration r.iteration) r.array_base (write_at r r.current buf) (appended r buf)
unfolding advance
full-Words r buf e =
    rw ((==_iff (r.current + length buf) (end r + 1)).1 e)
      (record { array_base = refl; size = refl; iteration = refl; current = refl; bytes = refl })

-- The reader has `buf` to read behind what was unread where both fit in the ring; else it is over run.
abbrev pub Follows :
    {stream : List ℕ} (r : Ring) → Holds r stream → Context → List ℕ → List ℕ → Type 0
Follows r h c unread buf =
    (length unread + length buf ≤ r.size) × Reads r h c (unread ++ buf)
    ⊎ (r.size < length unread + length buf) × (over_run r c ≡ true)

module _ {stream stream' : List ℕ} (r : Ring) (buf : List ℕ) (h : Holds r stream)
    (h' : Holds (appended r buf) stream') (i : r.iteration + 2 < 2 ^ 32) where
  module _ (e : r.current + length buf < end r + 1) where
    lap-inside : h'.lap ≡ h.lap ++ buf
    lap-inside =
        let words = inside-Words r buf e in
        let at : (appended r buf).current - (appended r buf).array_base ≡ length (h.lap ++ buf) =
          omega (arith, words.current, words.array_base, h.current, length-append h.lap buf) in
        lap-bytes (appended r buf) h'
        ∙ ap (λ k. take k (appended r buf).bytes) at
        ∙ ap (λ bs. take (length (h.lap ++ buf)) bs) (words.bytes ∙ write_at-current r stream buf h)
        ∙ take-append (h.lap ++ buf) (drop (length (h.lap ++ buf)) h.last)

    last-inside : (o : ℕ) → length (h.lap ++ buf) ≤ o → drop o h'.last ≡ drop o h.last
    last-inside o f =
        let words = inside-Words r buf e in
        let n : length (h.lap ++ buf) + (o - length (h.lap ++ buf)) ≡ o = omega (arith, f) in
        sym (drop-PreviousLap (appended r buf) h' o (omega (arith, ap length lap-inside, f)))
        ∙ ap (λ bs. drop o bs) (words.bytes ∙ write_at-current r stream buf h)
        ∙ drop-append_ge o (h.lap ++ buf) (drop (length (h.lap ++ buf)) h.last) f
        ∙ drop-drop (o - length (h.lap ++ buf)) (length (h.lap ++ buf)) h.last
        ∙ ap (λ k. drop k h.last) n

    inside-SameLap :
        (c : Context) (unread : List ℕ)
        → SameLap r h c unread
        → Follows (appended r buf) h' c unread buf
    inside-SameLap c unread s =
        let words = inside-Words r buf e in
        let lap : length h'.lap ≡ length h.lap + length buf =
          ap length lap-inside ∙ length-append h.lap buf in
        inl (
          omega (
            arith,
            words.size,
            ap length s.rest,
            length-drop s.o h.lap,
            e,
            h.current,
            h.base_pos,
            h.lap_length,
          ),
          inl (record {
            o = s.o;
            itteration = s.itteration ∙ sym words.iteration;
            data_block = omega (arith, s.data_block, words.array_base);
            inside = omega (arith, s.inside, lap);
            rest =
                ap (λ xs. xs ++ buf) s.rest
                ∙ sym (drop-append_le s.o h.lap buf s.inside)
                ∙ ap (λ xs. drop s.o xs) (sym lap-inside);
            held = omega (arith, s.held, lap);
          }),
        )

    inside-PreviousLap :
        (c : Context) (unread : List ℕ)
        → PreviousLap r h c unread
        → Follows (appended r buf) h' c unread buf
    unfolding over_run
    inside-PreviousLap c unread s =
        let words = inside-Words r buf e in
        let lap : length h'.lap ≡ length h.lap + length buf =
          ap length lap-inside ∙ length-append h.lap buf in
        let left : length unread ≡ r.size - s.o + length h.lap = omega (
          arith,
          ap length s.rest,
          length-append (drop s.o h.last) h.lap,
          length-drop s.o h.last,
          h.last_length,
        ) in
        elim (le-or-gt (length h'.lap) s.o) [
          | inl f ↦ inl (
            omega (arith, words.size, left, f, lap, s.inside),
            inr (record {
              o = s.o;
              itteration = s.itteration ∙ sym words.iteration;
              data_block = omega (arith, s.data_block, words.array_base);
              behind = f;
              inside = omega (arith, s.inside, words.size);
              rest =
                  ap (λ xs. xs ++ buf) s.rest
                  ∙ append_assoc (drop s.o h.last) h.lap buf
                  ∙ ap (λ xs. xs ++ (h.lap ++ buf))
                      (sym (last-inside s.o (omega (arith, f, ap length lap-inside))))
                  ∙ ap (λ xs. drop s.o h'.last ++ xs) (sym lap-inside);
              held = omega (arith, s.held, words.size);
            }),
          )
          | inr f ↦ inr (
            omega (arith, words.size, left, f, lap, s.inside),
            ground (
              arith, words.iteration, words.current, s.data_block, s.itteration, f, lap, h.current,
            ),
          )
        ]

  module _ (e : r.current + length buf ≡ end r + 1) where
    lap-full : h'.lap ≡ []
    lap-full =
        let words = full-Words r buf e in
        let at : (appended r buf).current - (appended r buf).array_base ≡ 0 =
          omega (arith, words.current, words.array_base) in
        lap-bytes (appended r buf) h' ∙ ap (λ k. take k (appended r buf).bytes) at

    last-full : (o : ℕ) → drop o h'.last ≡ drop o (h.lap ++ buf)
    last-full o =
        let words = full-Words r buf e in
        let n : length (h.lap ++ buf) ≡ r.size =
          omega (arith, length-append h.lap buf, e, h.current, h.lap_length, h.base_pos) in
        sym (drop-PreviousLap (appended r buf) h' o (omega (arith, ap length lap-full)))
        ∙ ap (λ bs. drop o bs)
            (words.bytes
              ∙ write_at-current r stream buf h
              ∙ ap (λ xs. (h.lap ++ buf) ++ xs)
                  (drop_all (length (h.lap ++ buf)) h.last (omega (arith, n, h.last_length)))
              ∙ append-nil (h.lap ++ buf))

    full-SameLap :
        (c : Context) (unread : List ℕ)
        → SameLap r h c unread
        → Follows (appended r buf) h' c unread buf
    full-SameLap c unread s =
        let words = full-Words r buf e in
        inl (
          omega (
            arith,
            words.size,
            ap length s.rest,
            length-drop s.o h.lap,
            e,
            h.current,
            h.base_pos,
            h.lap_length,
          ),
          inr (record {
            o = s.o;
            itteration = omega (arith, s.itteration, words.iteration, i);
            data_block = omega (arith, s.data_block, words.array_base);
            behind = omega (arith, ap length lap-full);
            inside = omega (arith, words.size, s.inside, h.lap_length);
            rest =
                ap (λ xs. xs ++ buf) s.rest
                ∙ sym (drop-append_le s.o h.lap buf s.inside)
                ∙ sym (last-full s.o)
                ∙ sym (append-nil (drop s.o h'.last))
                ∙ ap (λ xs. drop s.o h'.last ++ xs) (sym lap-full);
            held = omega (arith, s.held, words.size, h.lap_length);
          }),
        )

    full-PreviousLap :
        (c : Context) (unread : List ℕ)
        → PreviousLap r h c unread
        → Follows (appended r buf) h' c unread buf
    unfolding over_run
    full-PreviousLap c unread s =
        let words = full-Words r buf e in
        let left : length unread ≡ r.size - s.o + length h.lap = omega (
          arith,
          ap length s.rest,
          length-append (drop s.o h.last) h.lap,
          length-drop s.o h.last,
          h.last_length,
        ) in
        inr (
          omega (arith, words.size, left, e, h.current, h.base_pos, s.inside),
          ground (arith, words.iteration, s.itteration, i),
        )

  pub appended-Follows :
      (c : Context) (unread : List ℕ)
      → r.current + length buf ≤ end r + 1
      → Reads r h c unread
      → Follows (appended r buf) h' c unread buf
  appended-Follows c unread f reads = elim (le-or-gt (end r + 1) (r.current + length buf)) [
    | inl full ↦
        let e : r.current + length buf ≡ end r + 1 = omega (arith, f, full) in
        elim reads [ inl s ↦ full-SameLap e c unread s | inr s ↦ full-PreviousLap e c unread s ]
    | inr e ↦ elim reads [
      | inl s ↦ inside-SameLap e c unread s
      | inr s ↦ inside-PreviousLap e c unread s
    ]
  ]
