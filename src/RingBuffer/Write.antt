-- ===== src/RingBuffer/Write.antt =====
-- The writer of lib-sxe-ring-buffer/sxe-ring-buffer.c as an append to a stream of bytes.
use libsxe.Base.{
  ℕ, ◌+◌, ◌-◌, ◌^◌, ◌≤◌, ◌<◌, ◌≡◌, refl, ap, sym, ◌∙◌, List, [], ◌++◌, ◌==◌, ==_iff, Bool-cases,
  inl, inr, arith, length, drop, copy_at, length-append, take-append, drop-append_ge, drop-drop,
  drop_all, append-nil, append_assoc,
}
use libsxe.RingBuffer.{Ring, end, write_at, advance}

-- The array holds what is written in this lap, and behind it what is left of the last lap; in the first
-- lap that is what the memory held.
pub record Holds (r : Ring) (stream : List ℕ) : Type 0 where
  pub laps : List ℕ
  pub last : List ℕ
  pub lap : List ℕ
  pub base_pos : 0 < r.array_base
  pub stream_split : stream ≡ laps ++ lap
  pub last_length : length last ≡ r.size
  pub lap_length : length lap < r.size
  pub bytes : r.bytes ≡ lap ++ drop (length lap) last
  pub current : r.current ≡ r.array_base + length lap
  pub first_lap : r.iteration ≡ 0 → (r.writen_end ≡ r.array_base + (length lap - 1)) × (laps ≡ [])
  pub later_lap :
      0 < r.iteration → (r.writen_end ≡ end r) × ((before : List ℕ) × (laps ≡ before ++ last))

copy_at-lap :
    (lap last buf : List ℕ)
    → copy_at (lap ++ drop (length lap) last) (length lap) buf
      ≡ (lap ++ buf) ++ drop (length (lap ++ buf)) last
unfolding copy_at
copy_at-lap lap last buf =
    ap (λ xs. (xs ++ buf) ++ drop (length lap + length buf) (lap ++ drop (length lap) last))
      (take-append lap (drop (length lap) last))
    ∙ ap (λ xs. (lap ++ buf) ++ xs)
        (drop-append_ge (length lap + length buf) lap (drop (length lap) last) (omega arith)
          ∙ drop-drop (length lap + length buf - length lap) (length lap) last
          ∙ ap (λ k. drop k last) (omega (arith, length-append lap buf)))

-- The memory behind a write of `buf` at the pointer to the first free byte.
pub write_at-current :
    (r : Ring) (stream buf : List ℕ) (h : Holds r stream)
    → write_at r r.current buf ≡ (h.lap ++ buf) ++ drop (length (h.lap ++ buf)) h.last
write_at-current r stream buf h =
    let at : r.current - r.array_base ≡ length h.lap = omega (arith, h.current) in
    ap (λ bs. copy_at bs (r.current - r.array_base) buf) h.bytes
    ∙ ap (λ k. copy_at (h.lap ++ drop (length h.lap) h.last) k buf) at
    ∙ copy_at-lap h.lap h.last buf

split_append :
    (stream buf laps lap : List ℕ) → stream ≡ laps ++ lap → stream ++ buf ≡ laps ++ (lap ++ buf)
split_append stream buf laps lap e = ap (λ xs. xs ++ buf) e ∙ append_assoc laps lap buf

-- The ring behind a write of `buf` that ends in the array.
abbrev pub appended : Ring → List ℕ → Ring
appended r buf = advance (record r { bytes = write_at r r.current buf }) (length buf)

pub appended-Holds :
    (r : Ring) (stream buf : List ℕ)
    → Holds r stream
    → r.iteration + 1 < 2 ^ 32
    → r.current + length buf ≤ end r + 1
    → Holds (appended r buf) (stream ++ buf)
unfolding advance
appended-Holds r stream buf h i f =
    let written = length-append h.lap buf in
    let split = split_append stream buf h.laps h.lap h.stream_split in
    let bytes = write_at-current r stream buf h in
    elim (Bool-cases (r.current + length buf == end r + 1)) [
      | inl e ↦
          let full : length (h.lap ++ buf) ≡ r.size = omega (
            arith,
            h.base_pos,
            h.current,
            written,
            h.lap_length,
            (==_iff (r.current + length buf) (end r + 1)).0 e,
          ) in
          rw e (record {
            laps = h.laps ++ (h.lap ++ buf);
            last = h.lap ++ buf;
            lap = [];
            base_pos = h.base_pos;
            stream_split = split ∙ sym (append-nil (h.laps ++ (h.lap ++ buf)));
            last_length = full;
            lap_length = omega (arith, h.lap_length);
            bytes =
                bytes
                ∙ ap (λ xs. (h.lap ++ buf) ++ xs)
                    (drop_all (length (h.lap ++ buf)) h.last (omega (arith, full, h.last_length)))
                ∙ append-nil (h.lap ++ buf);
            current = omega arith;
            first_lap = λ z. absurd (omega (arith, z, i));
            later_lap = λ p. (refl, (h.laps, refl));
          })
      | inr e ↦
          let inside : r.current + length buf < end r + 1 = ground (arith, e, f) in
          rw e (record {
            laps = h.laps;
            last = h.last;
            lap = h.lap ++ buf;
            base_pos = h.base_pos;
            stream_split = split;
            last_length = h.last_length;
            lap_length = omega (arith, h.base_pos, h.current, written, inside, h.lap_length);
            bytes = bytes;
            current = omega (arith, h.current, written);
            first_lap =
                λ z. (ground (arith, h.current, written, (h.first_lap z).0), (h.first_lap z).1);
            later_lap = λ p. (
              ground (arith, inside, h.base_pos, h.lap_length, (h.later_lap p).0),
              (h.later_lap p).1,
            );
          })
    ]
